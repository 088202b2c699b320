-- ===== src/Oauth/Tokens.antt =====
-- Tokens of src/mailmind/mcp/oauth.py: refreshing, resolving and revoking them.
use ronny_email_worker.Prelude.{
  ℕ, Bool, not, ◌&&◌, ◌||◌, Option, none, some, [], ◌∷◌, if◌then◌else◌, first, update_first,
  is_some, is_none,
}
use ronny_email_worker.Text.{Text, text_eq}
use ronny_email_worker.Models.{Grant, OauthToken, OauthTokenKind, is_access, is_refresh}
use ronny_email_worker.Grants.{view, is_live}
use ronny_email_worker.Oauth.Rows.{
  AccessToken, Auth, Exchanged, RefreshToken, any_kind, get_grant, grant_gone, live_token,
  only_scope, or_cli, refresh_spent,
}
use ronny_email_worker.Oauth.Codes.{hand_out, issue}

module _ (hash : Text → Text) (mint : ℕ → Text) where
  -- The row that a token names, of one kind or of any.
  abbrev pub is_token : (kind : OauthTokenKind → Bool) → Text → OauthToken → Bool
  is_token kind token row = text_eq row.token_hash (hash token) && kind row.kind

  unfoldable pub find_token : Auth → (kind : OauthTokenKind → Bool) → Text → Option OauthToken
  find_token a kind token = first (is_token kind token) a.tokens

  unfoldable pub load_refresh_token : Auth → (client_id token : Text) → Option RefreshToken
  load_refresh_token a client_id token = elim (find_token a is_refresh token) [
    | none ↦ none
    | some row ↦
        if not (live_token a.db.now (some row)) || not (text_eq row.client_id client_id)
        then none
        else some (record {
          token = token;
          client_id = row.client_id;
          scopes = only_scope ∷ [];
          expires_at = row.expires_at;
        })
  ]

  abbrev pub revoke_first : Auth → (kind : OauthTokenKind → Bool) → Text → Auth
  revoke_first a kind token = record a {
    tokens =
        update_first (is_token kind token) (λ row. record row { revoked_at = some a.db.now })
          a.tokens;
  }

  unfoldable pub exchange_refresh_token : Auth → (token : Text) → Auth × Exchanged
  exchange_refresh_token a token = elim (find_token a is_refresh token) [
    | none ↦ (a, refresh_spent)
    | some row ↦
        if not (live_token a.db.now (some row))
        then (a, refresh_spent)
        else elim (get_grant a.grants row.grant_id) [
          | none ↦ (a, grant_gone)
          | some g ↦
              if is_some g.revoked_at
              then (a, grant_gone)
              else hand_out hash mint
                  (issue hash mint (revoke_first a is_refresh token) row.grant_id row.client_id)
        ]
  ]

  abbrev pub access_of : (token client_id : Text) → (expires_at : Option ℕ) → Grant → AccessToken
  access_of token client_id expires_at g = record {
    token = token;
    client_id = client_id;
    scopes = only_scope ∷ [];
    expires_at = expires_at;
    grant_view = view g;
  }

  -- The grant, if it is live.
  abbrev pub live_grant : (now : ℕ) → Option Grant → Option Grant
  live_grant now o = if is_live now o then o else none

  -- The token of a row that is live, by the grant that it names.
  unfoldable pub load_by_row : Auth → Text → OauthToken → Option AccessToken
  load_by_row a token row = elim (live_grant a.db.now (get_grant a.grants row.grant_id)) [
    | none ↦ none
    | some g ↦ some (access_of token row.client_id row.expires_at g)
  ]

  -- The other shape: a token that is a grant's own.
  unfoldable pub load_by_grant : Auth → Text → Option AccessToken
  load_by_grant a token =
      elim (live_grant a.db.now (first (λ g. text_eq g.token_hash (hash token)) a.grants)) [
        | none ↦ none
        | some g ↦ some (access_of token (or_cli g.client_id) g.expires_at g)
      ]

  unfoldable pub load_access_token : Auth → Text → Option AccessToken
  load_access_token a token = elim (find_token a is_access token) [
    | none ↦ load_by_grant a token
    | some row ↦
        if live_token a.db.now (some row) then load_by_row a token row else load_by_grant a token
  ]

  unfoldable pub revoke_token : Auth → Text → Auth
  revoke_token a token = elim (find_token a any_kind token) [
    | none ↦ a
    | some row ↦ if is_none row.revoked_at then revoke_first a any_kind token else a
  ]
