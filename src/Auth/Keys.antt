-- ===== src/Auth/Keys.antt =====
-- When an API key authenticates its caller, and when it does no longer.
use mvirt.Prelude.{
  keep, ℕ, String, Bool, true, false, ◌≡◌, refl, sym, ap, ◌≢◌, ◌∙◌, Option, none, some, List, [],
  ◌∷◌, arith, ◌==◌, not, is_some, eq_iff, as_bytes,
}
use mvirt.Redb.{Redb}
use mvirt.Redb.Keyed.{IsKeyed}
use mvirt.Redb.Txn.{txn_get}
use mvirt.Redb.Txn.Laws.{read_get-txn_get, txn_get-txn_put_self}
use mvirt.Resource.Account.{ApiKeyData}
use mvirt.Command.Account.{RevokeStaticApiKey, DeleteServiceAccount}
use mvirt.State.{Tables}
use mvirt.Apply.Ensures.{Ensures, Ensures-done, Ensures-if, Ensures-some_or, Ensures-return_if}
use mvirt.Apply.Account.{apply_revoke_static_api_key, apply_delete_service_account}
use mvirt.Redb.Txn.{delete_rows, txn_list, txn_put}
use mvirt.Redb.Txn.Rows.{txn_get-delete_rows-keep}
use mvirt.Apply.Account.{is_service_account}
use mvirt.Query.Account.{get_api_key, get_account, list_memberships_for_account}
use package.mvirt.Auth.{
  AuthContext, Authentication, ok, ◌>>=◌, ◌>>◌, ok_or, refuse_if, is_expired, hex_to_array, hash_eq,
  parse_token, check_key, authenticate_static_api_key,
}

-- The row of a key that has been revoked.
abbrev dead_key : RevokeStaticApiKey → ApiKeyData → ApiKeyData
dead_key c key = record key { revoked_at = some c.timestamp }

-- What holds of the result, if there is one.
record Yields {A : Type 0} (P : A → Type 0) (m : Authentication A) : Type 0 where
  at : (r : A) → m ≡ ok r → P r

module _ {A : Type 0} {P : A → Type 0} where
  Yields-ok : (a : A) → P a → Yields P (ok a)
  Yields-ok a p = record { at = λ r h. ground (arith, p) }

  Yields-refuse_if :
      (reason : String) (test : Bool) (k : Authentication A)
      → (test ≡ false → Yields P k)
      → Yields P (refuse_if test reason >> k)
  Yields-refuse_if reason true k next = record { at = λ r h. cc }
  Yields-refuse_if reason false k next = next refl

  Yields-ok_or :
      {B : Type 0} (reason : String) (o : Option B) (f : B → Authentication A)
      → ((b : B) → o ≡ some b → Yields P (f b))
      → Yields P (ok_or o reason >>= f)
  Yields-ok_or reason none f next = record { at = λ r h. cc }
  Yields-ok_or reason (some b) f next = next b refl

hash_eq_sound : (xs ys : List ℕ) → hash_eq xs ys ≡ true → xs ≡ ys
unfolding hash_eq
hash_eq_sound [] [] h = refl
hash_eq_sound [] (b ∷ bs) h = cc
hash_eq_sound (a ∷ as_) [] h = cc
hash_eq_sound (a ∷ as_) (b ∷ bs) h = ground (arith, h, hash_eq_sound as_ bs)

module _ ⦃redb : Redb⦄ (blake3 : List ℕ → List ℕ) (now : String) (db : Tables) where
  -- What the acceptance of a key's id and secret says of the tables.
  pub record IsGranted (id secret : String) (ctx : AuthContext) : Type 0 where
    pub key : ApiKeyData
    pub known : get_api_key db id ≡ some key
    pub live : key.revoked_at ≡ none
    pub fresh : is_expired now key.expires_at ≡ false
    pub secret_matches : hex_to_array key.hash_hex ≡ some (blake3 (as_bytes secret))
    pub account_there : get_account db key.account_id ≡ some ctx.account
    pub memberships_of : ctx.memberships ≡ list_memberships_for_account db ctx.account.id

  no_value : {B : Type 0} (o : Option B) → is_some o ≡ false → o ≡ none
  no_value none h = refl
  no_value (some b) h = cc

  check_key-IsGranted :
      (id secret : String) → Yields (IsGranted id secret) (check_key blake3 now db id secret)
  unfolding check_key
  check_key-IsGranted id secret = Yields-ok_or _ (get_api_key db id) _ λ key known.
      Yields-refuse_if _ (is_some key.revoked_at) _ λ live.
        Yields-refuse_if _ (is_expired now key.expires_at) _ λ fresh.
          Yields-ok_or _ (hex_to_array key.hash_hex) _ λ stored decoded.
            Yields-refuse_if _ (not (hash_eq (blake3 (as_bytes secret)) stored)) _ λ same.
              Yields-ok_or _ (get_account db key.account_id) _ λ account there.
                Yields-ok _ (record {
                  key = key;
                  known = known;
                  live = no_value key.revoked_at live;
                  fresh = fresh;
                  secret_matches =
                      decoded
                      ∙ ap some (
                          sym (
                            hash_eq_sound (blake3 (as_bytes secret)) stored
                              (ground (arith, same))));
                  account_there = there;
                  memberships_of = refl;
                })

  -- A token that authenticates its caller names a key that is in the table, neither revoked nor
  -- expired, whose stored hash is that of the token's secret; the caller is the key's account,
  -- and the memberships are that account's.
  pub authenticate_static_api_key_lem :
      (token id secret : String) (ctx : AuthContext)
      → parse_token token ≡ ok (id, secret)
      → authenticate_static_api_key blake3 now db token ≡ ok ctx
      → IsGranted id secret ctx
  unfolding authenticate_static_api_key
  authenticate_static_api_key_lem token id secret ctx parsed h =
      (check_key-IsGranted id secret).at ctx (sym (rw parsed refl) ∙ h)

module _ ⦃redb : Redb⦄ (blake3 : List ℕ → List ℕ) (now : String) (db : Tables) where
  get_api_key-txn_get : (id : String) → get_api_key db id ≡ txn_get db.api_keys id
  unfolding get_api_key
  get_api_key-txn_get id = read_get-txn_get db.api_keys id

  refused_revoked :
      (token id secret : String) (ctx : AuthContext) (key : ApiKeyData)
      → parse_token token ≡ ok (id, secret)
      → txn_get db.api_keys id ≡ some key
      → is_some key.revoked_at ≡ true
      → authenticate_static_api_key blake3 now db token ≢ ok ctx
  refused_revoked token id secret ctx key parsed there dead h =
      let g = authenticate_static_api_key_lem blake3 now db token id secret ctx parsed h in
      ground (arith, g.known, g.live, get_api_key-txn_get id, there, dead)

  refused_missing :
      (token id secret : String) (ctx : AuthContext)
      → parse_token token ≡ ok (id, secret)
      → txn_get db.api_keys id ≡ none
      → authenticate_static_api_key blake3 now db token ≢ ok ctx
  refused_missing token id secret ctx parsed gone h =
      let g = authenticate_static_api_key_lem blake3 now db token id secret ctx parsed h in
      ground (arith, g.known, get_api_key-txn_get id, gone)

module _ ⦃redb : Redb⦄ (blake3 : List ℕ → List ℕ) (now : String) (db : Tables) where
  -- After a key has been revoked, no token that names it authenticates anybody.
  pub revoke_static_api_key_lem :
      (c : RevokeStaticApiKey) (token secret : String) (ctx : AuthContext)
      → parse_token token ≡ ok (c.id, secret)
      → Ensures
          (λ a. authenticate_static_api_key blake3 now a.0 token ≢ ok ctx)
          (apply_revoke_static_api_key db c)
  unfolding apply_revoke_static_api_key
  revoke_static_api_key_lem c token secret ctx parsed =
      Ensures-some_or _ (txn_get db.api_keys c.id) _ λ key there.
        Ensures-if (is_some key.revoked_at) _ _
          (λ dead.
            Ensures-done _
              (refused_revoked blake3 now db token c.id secret ctx key parsed there dead))
          (λ live. Ensures-done _ (
            refused_revoked blake3 now
              (record db { api_keys = txn_put db.api_keys c.id (dead_key c key) }) token c.id secret
              ctx (dead_key c key) parsed
              (txn_get-txn_put_self db.api_keys c.id c.id (dead_key c key) refl) refl))

  -- After a service account has been deleted, no token that names one of its keys authenticates
  -- anybody.
  pub delete_service_account_lem :
      (c : DeleteServiceAccount) (token id secret : String) (key : ApiKeyData) (ctx : AuthContext)
      → parse_token token ≡ ok (id, secret)
      → IsKeyed (λ k. k.id) db.api_keys
      → txn_get db.api_keys id ≡ some key
      → key.account_id ≡ c.account_id
      → Ensures
          (λ a. authenticate_static_api_key blake3 now a.0 token ≢ ok ctx)
          (apply_delete_service_account db c)
  unfolding apply_delete_service_account
  delete_service_account_lem c token id secret key ctx parsed keyed there mine =
      Ensures-some_or _ (txn_get db.accounts c.account_id) _ λ acc found_account.
        Ensures-return_if _ (not (is_service_account acc.kind)) _
          λ service. Ensures-done _ (refused_missing blake3 now _ token id secret ctx parsed gone)
    where
      gone :
          txn_get
            (delete_rows
              (λ k. k.id)
              db.api_keys
              (keep (λ k. k.account_id == c.account_id) (txn_list db.api_keys)))
            id
          ≡ none
      gone = ground (
        arith,
        there,
        mine,
        eq_iff key.account_id c.account_id,
        txn_get-delete_rows-keep (λ k. k.id) db.api_keys keyed (λ k. k.account_id == c.account_id)
            id,
      )
