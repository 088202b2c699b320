-- ===== src/Oauth/Access.antt =====
-- What a bearer token reaches: `load_access_token` and `revoke_token` in src/mailmind/mcp/oauth.py.
use ronny_email_worker.Prelude.{
  ℕ, ◌≡◌, refl, Bool, true, false, Option, none, some, Memᴰ, ◌==◌, ◌⊎◌, arith, first, is_none,
  first-holds, first-narrow, first-Memᴰ, Option-cases, Bool-cases, inl, inr, first-update_first,
}
use ronny_email_worker.Text.{Text, text_eq, text_eq_iff}
use ronny_email_worker.Models.{Grant, OauthToken, is_access}
use ronny_email_worker.Grants.{view, is_live}
use ronny_email_worker.Oauth.Rows.{AccessToken, Auth, any_kind, get_grant, live_token}
use ronny_email_worker.Oauth.Tokens.{
  find_token, is_token, live_grant, load_access_token, load_by_grant, load_by_row, revoke_first,
  revoke_token,
}

module _ (hash : Text → Text) (mint : ℕ → Text) where
  -- The token names the grant: by a live access token's row, or as the grant's own token.
  pub Names : Auth → Text → Grant → Type 0
  Names a token g =
      ((row : OauthToken) × Memᴰ row a.tokens
        × (is_access row.kind ≡ true)
        × (row.token_hash ≡ hash token)
        × (live_token a.db.now (some row) ≡ true)
        × (row.grant_id ≡ g.id))
      ⊎ (g.token_hash ≡ hash token)

  live_grant-live :
      (now : ℕ) (o : Option Grant) (g : Grant)
      → live_grant hash mint now o ≡ some g
      → (o ≡ some g) × (is_live now (some g) ≡ true)
  unfolding is_live
  live_grant-live now o g h = ground arith

  grant-row :
      (a : Auth) (token : Text) (row : OauthToken) (t : AccessToken)
      → load_by_row hash mint a token row ≡ some t
      → (g : Grant) × (get_grant a.grants row.grant_id ≡ some g)
        × (is_live a.db.now (some g) ≡ true)
        × (t.grant_view ≡ view g)
  unfolding load_by_row
  grant-row a token row t h =
      elim (Option-cases (live_grant hash mint a.db.now (get_grant a.grants row.grant_id))) [
        | inl e ↦ ground (arith, e)
        | inr (g, e) ↦
            let live = live_grant-live a.db.now (get_grant a.grants row.grant_id) g e in
            (g, live.0, live.1, ground (arith, e))
      ]

  grant-own :
      (a : Auth) (token : Text) (t : AccessToken)
      → load_by_grant hash mint a token ≡ some t
      → (g : Grant) × (first (λ g. text_eq g.token_hash (hash token)) a.grants ≡ some g)
        × (is_live a.db.now (some g) ≡ true)
        × (t.grant_view ≡ view g)
  unfolding load_by_grant
  grant-own a token t h =
      let own = first (λ g. text_eq g.token_hash (hash token)) a.grants in
      elim (Option-cases (live_grant hash mint a.db.now own)) [
        | inl e ↦ ground (arith, e)
        | inr (g, e) ↦
            let live = live_grant-live a.db.now own g e in (g, live.0, live.1, ground (arith, e))
      ]

  -- The two ways in which a token is accepted.
  load-cases :
      (a : Auth) (token : Text) (t : AccessToken)
      → load_access_token hash mint a token ≡ some t
      → ((row : OauthToken) × (find_token hash mint a is_access token ≡ some row)
          × (live_token a.db.now (some row) ≡ true)
          × (load_by_row hash mint a token row ≡ some t))
        ⊎ (load_by_grant hash mint a token ≡ some t)
  unfolding load_access_token
  load-cases a token t h = elim (Option-cases (find_token hash mint a is_access token)) [
    | inl e ↦ inr (ground (arith, e))
    | inr (row, e) ↦ elim (Bool-cases (live_token a.db.now (some row))) [
      | inl f ↦ inl (row, e, f, ground (arith, e, f))
      | inr f ↦ inr (ground (arith, e, f))
    ]
  ]

  -- A bearer token that is accepted carries the view of a grant that the server keeps, that is
  -- live, and that the token names.
  pub load_access_token-backed :
      (a : Auth) (token : Text) (t : AccessToken)
      → load_access_token hash mint a token ≡ some t
      → (g : Grant) × Memᴰ g a.grants
        × (is_live a.db.now (some g) ≡ true)
        × Names a token g
        × (t.grant_view ≡ view g)
  unfolding find_token get_grant Names
  load_access_token-backed a token t h = elim (load-cases a token t h) [
    | inl (row, e, f, k) ↦
        let (g, at, live, v) = grant-row a token row t k in
        let named = first-holds (is_token hash mint is_access token) a.tokens row e in
        (
          g,
          first-Memᴰ (λ g. g.id == row.grant_id) a.grants g at,
          live,
          inl (
            row,
            first-Memᴰ (is_token hash mint is_access token) a.tokens row e,
            ground (arith, named),
            (text_eq_iff row.token_hash (hash token)).0 (ground (arith, named)),
            f,
            ground (arith, first-holds (λ g. g.id == row.grant_id) a.grants g at),
          ),
          v,
        )
    | inr k ↦
        let (g, at, live, v) = grant-own a token t k in
        let own : Grant → Bool = λ g. text_eq g.token_hash (hash token) in
        (
          g,
          first-Memᴰ own a.grants g at,
          live,
          inr ((text_eq_iff g.token_hash (hash token)).0 (first-holds own a.grants g at)),
          v,
        )
  ]

  -- The one row that a token names, whatever kind is asked for.
  narrowed :
      (a : Auth) (token : Text) (row : OauthToken)
      → find_token hash mint a any_kind token ≡ some row
      → is_access row.kind ≡ true
      → find_token hash mint a is_access token ≡ some row
  unfolding find_token
  narrowed a token row h k =
      let wide = is_token hash mint any_kind token in
      let narrow = is_token hash mint is_access token in
      first-narrow wide narrow a.tokens row (λ x e. ground (arith, e)) h
        (ground (arith, first-holds wide a.tokens row h, k))

  dead_row :
      (a : Auth) (token : Text) (row : OauthToken)
      → find_token hash mint a is_access token ≡ some row
      → live_token a.db.now (some row) ≡ false
      → first (λ g. text_eq g.token_hash (hash token)) a.grants ≡ none
      → load_access_token hash mint a token ≡ none
  unfolding load_access_token load_by_grant is_live
  dead_row a token row h k own = ground (arith, h, k, own)

  find_any_revoked :
      (a : Auth) (token : Text) (row : OauthToken)
      → find_token hash mint a any_kind token ≡ some row
      → find_token hash mint (revoke_first hash mint a any_kind token) any_kind token
        ≡ some (record row { revoked_at = some a.db.now })
  unfolding find_token
  find_any_revoked a token row h =
      let known =
        first-update_first (is_token hash mint any_kind token)
          (λ row. record row { revoked_at = some a.db.now }) a.tokens (λ row. refl) in
      ground (arith, known, h)

  -- A token that is revoked reaches nothing: where it names an access token's row and is no grant's
  -- own token, it is accepted no more after `revoke_token`, whether or not it was before.
  pub revoke_token-refused :
      (a : Auth) (token : Text) (row : OauthToken)
      → find_token hash mint a any_kind token ≡ some row
      → is_access row.kind ≡ true
      → first (λ g. text_eq g.token_hash (hash token)) a.grants ≡ none
      → load_access_token hash mint (revoke_token hash mint a token) token ≡ none
  unfolding revoke_token live_token
  revoke_token-refused a token row h k own = elim (Bool-cases (is_none row.revoked_at)) [
    | inl e ↦
        let later = revoke_first hash mint a any_kind token in
        let gone = record row { revoked_at = some a.db.now } in
        let refused =
          dead_row later token gone (narrowed later token gone (find_any_revoked a token row h) k)
            refl own in
        ground (arith, h, e, refused)
    | inr e ↦
        let refused = dead_row a token row (narrowed a token row h k) (ground (arith, e)) own in
        ground (arith, h, e, refused)
  ]
