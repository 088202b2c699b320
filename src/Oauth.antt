-- ===== src/Oauth.antt =====
-- src/mailmind/mcp/oauth.py: the authorization server.
pub mod Rows
pub mod Codes
pub mod Tokens
pub mod Agreeing
pub mod Issuing
pub mod Spending
pub mod Access
pub mod Consent
pub mod Steps
