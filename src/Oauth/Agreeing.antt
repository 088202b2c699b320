-- ===== src/Oauth/Agreeing.antt =====
-- `consent` of src/mailmind/mcp/oauth.py: what a person agrees to becomes a grant and a code.
use ronny_email_worker.Prelude.{ℕ, ◌+◌, none, some, List, [], ◌∷◌, ◌++◌, update_first, length}
use ronny_email_worker.Text.{Text, text_eq}
use ronny_email_worker.Models.{Grant, OauthAuthorization, Value}
use ronny_email_worker.Scope.{audit}
use ronny_email_worker.Oauth.Rows.{Auth, code_ttl}

module _ (hash : Text → Text) (mint : ℕ → Text) where
  -- The grant that `consent` makes. Its own token is minted and dropped.
  abbrev pub consented :
      Auth
      → (producer_id : ℕ) → (capabilities : List Text) → (account_ids : List ℕ) → (client_id : Text)
      → Grant
  consented a producer_id capabilities account_ids client_id = record {
    id = a.next_grant;
    producer_id = producer_id;
    token_hash = hash (mint a.minted);
    capabilities = capabilities;
    client_id = some client_id;
    created_at = a.db.now;
    expires_at = none;
    revoked_at = none;
    accounts = account_ids;
  }

  -- `consent` to the request of an id, with the code.
  unfoldable pub consent :
      Auth
      → OauthAuthorization
      → (producer_id : ℕ) → (capabilities : List Text) → (account_ids : List ℕ) → Auth × Text
  consent a request producer_id capabilities account_ids =
      let code = mint (a.minted + 1) in
      (
        record a {
          db =
              audit "grant_consented" "person" "grant" none (some a.next_grant)
                (("client_id", Value.text request.client_id)
                  ∷ ("capabilities", Value.texts capabilities)
                  ∷ ("accounts", Value.num (length account_ids))
                  ∷ [])
                a.db;
          requests =
              update_first (λ row. text_eq row.request_id request.request_id)
                (λ row. record row {
                  grant_id = some a.next_grant;
                  code_hash = some (hash code);
                  code_expires_at = some (a.db.now + code_ttl);
                })
                a.requests;
          grants =
              a.grants ++ consented a producer_id capabilities account_ids request.client_id ∷ [];
          next_grant = a.next_grant + 1;
          minted = a.minted + 2;
        },
        code,
      )
