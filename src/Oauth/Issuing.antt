-- ===== src/Oauth/Issuing.antt =====
-- The pair that `_issue` in src/mailmind/mcp/oauth.py hands out, and how its access token is
-- loaded.
use ronny_email_worker.Prelude.{
  ℕ, ◌+◌, ◌≡◌, refl, ◌∙◌, true, none, some, [], ◌∷◌, arith, first-append_none, lt→ltb,
}
use ronny_email_worker.Text.{Text, text_eq, text_eq_iff}
use ronny_email_worker.Models.{Grant, OauthToken, OauthTokenKind, is_access}
use ronny_email_worker.Grants.{is_live}
use ronny_email_worker.Oauth.Rows.{Auth, access_ttl, get_grant, live_token, refresh_ttl}
use ronny_email_worker.Oauth.Codes.{issue, new_token}
use ronny_email_worker.Oauth.Tokens.{
  access_of, find_token, is_token, load_access_token, load_by_row,
}

module _ (hash : Text → Text) (mint : ℕ → Text) where
  abbrev access_row : Auth → ℕ → Text → OauthToken
  access_row a grant_id client_id =
      new_token hash mint a OauthTokenKind.access (mint a.minted) grant_id client_id access_ttl

  find_issued :
      (a : Auth) (grant_id : ℕ) (client_id : Text)
      → find_token hash mint a is_access (mint a.minted) ≡ none
      → find_token hash mint (issue hash mint a grant_id client_id).0 is_access (mint a.minted)
        ≡ some (access_row a grant_id client_id)
  unfolding find_token issue
  find_issued a grant_id client_id h =
      let met : text_eq (hash (mint a.minted)) (hash (mint a.minted)) ≡ true =
        (text_eq_iff (hash (mint a.minted)) (hash (mint a.minted))).1 refl in
      let rest =
        access_row a grant_id client_id
        ∷ new_token hash mint a OauthTokenKind.refresh (mint (a.minted + 1)) grant_id client_id
            refresh_ttl
        ∷ [] in
      first-append_none (is_token hash mint is_access (mint a.minted)) a.tokens rest h
      ∙ ground (arith, met)

  pub issue-load :
      (a : Auth) (grant_id : ℕ) (client_id : Text) (g : Grant)
      → find_token hash mint a is_access (mint a.minted) ≡ none
      → get_grant a.grants grant_id ≡ some g
      → is_live a.db.now (some g) ≡ true
      → load_access_token hash mint
          (issue hash mint a grant_id client_id).0
          (issue hash mint a grant_id client_id).1.access_token
        ≡ some (access_of hash mint (mint a.minted) client_id (some (a.db.now + access_ttl)) g)
  unfolding load_access_token load_by_row live_token issue
  issue-load a grant_id client_id g h k live =
      let found = find_issued a grant_id client_id h in
      let soon = lt→ltb a.db.now (a.db.now + access_ttl) (omega arith) in
      ground (arith, found, soon, k, live)
