-- ===== src/Api/Auth/Login.antt =====
-- api-client.ts and auth-callback.ts: a session through `ensureAuthenticated` and the page that a
-- login comes back to.
use mallard.Common.{
  arith, ℕ, zero, suc, ◌≡◌, refl, Text, Option-cases, none, some, true, false, Bool-cases, ◌&&◌,
  inl, inr, ◌⊎◌, [], ◌∷◌, ◌++◌,
}
use mallard.Api.Auth.{
  answered, settled, FiefAuth, UrlLibrary, Session, auth_valid, callback_url, ensure_authenticated,
  get_auth_token, auth_callback,
}

module _ {B : Type 0} {E : Type 0} (fief_auth : FiefAuth B E) where
  -- A saved token that Fief accepts.
  abbrev pub IsSignedIn : B → Type 0
  IsSignedIn fief =
      (access_token : Text) × (fief_auth.is_authenticated fief ≡ true)
      × (fief_auth.get_token_info fief ≡ some access_token)
      × (fief_auth.validate_access_token access_token fief ≡ none)

  -- No error is of all three classes of errors that the code names.
  abbrev pub HasSeparateErrors : Type 0
  HasSeparateErrors =
      (err : E)
      → (fief_auth.is_expired err && (fief_auth.is_invalid err && fief_auth.is_missing_scope err))
        ≡ false

  -- Whether the check finds a token that Fief accepts, or none.
  auth_valid-cases :
      HasSeparateErrors
      → (session : Session B)
      → IsSignedIn session.fief × (auth_valid fief_auth session ≡ (answered true, session))
        ⊎ (¬ IsSignedIn session.fief) × (auth_valid fief_auth session ≡ (answered false, session))
  unfolding auth_valid
  auth_valid-cases separate session =
      let fief = session.fief in
      elim (Bool-cases (fief_auth.is_authenticated fief)) [
        | inr out ↦ inr ((λ (t, a, b, c). absurd (cc)), rw out refl)
        | inl stored ↦ elim (Option-cases (fief_auth.get_token_info fief)) [
          | inl missing ↦ inr ((λ (t, a, b, c). absurd (cc)), rw (stored, missing) refl)
          | inr (token, found) ↦ elim (Option-cases (fief_auth.validate_access_token token fief)) [
            | inl accepted ↦
                inl ((token, stored, found, accepted), rw (stored, found, accepted) refl)
            | inr (err, refused) ↦ inr (
              (λ (t, a, b, c). absurd (ground (arith))),
              rw (stored, found, refused, separate err) refl,
            )
          ]
        ]
      ]

  module _ (urls : UrlLibrary) (location : Text) where
    -- The session after a login was asked for.
    abbrev pub redirected : Session B → Session B
    redirected session = record {
      fief = (fief_auth.redirect_to_login (callback_url urls location) session.fief).1;
      pre_auth_location = some location;
      logins = session.logins ++ callback_url urls location ∷ [];
    }

    -- Where no error is of all three classes at once, `ensureAuthenticated` throws no error of the
    -- validation. With a saved token that Fief accepts it changes nothing and returns. Otherwise it
    -- saves the location and asks for one login, which leads to the callback page; it returns if the
    -- user can be redirected to the login, and throws the error of the redirection if not.
    pub ensure_authenticated_lem :
        HasSeparateErrors
        → (session : Session B)
        → IsSignedIn session.fief
            × (ensure_authenticated urls location (some fief_auth) session ≡ (answered tt, session))
          ⊎ (¬ IsSignedIn session.fief)
            × (ensure_authenticated urls location (some fief_auth) session ≡ (
              settled (fief_auth.redirect_to_login (callback_url urls location) session.fief).0,
              redirected session,
            ))
    unfolding ensure_authenticated
    ensure_authenticated_lem separate session = elim (auth_valid-cases separate session) [
      | inl (signed_in, valid) ↦ inl (signed_in, rw valid refl)
      | inr (out, not_valid) ↦ inr (out, rw not_valid refl)
    ]

    -- The session after requests that wait for the lock, one after another, whether or not one of
    -- them throws.
    abbrev pub ensure_each : ℕ → Session B → Session B
    ensure_each zero session = session
    ensure_each (suc n) session =
        ensure_each n (ensure_authenticated urls location (some fief_auth) session).1

    ensure_each-saved :
        HasSeparateErrors
        → (n : ℕ) (session : Session B) → session.pre_auth_location ≡ some location
        → (ensure_each n session).pre_auth_location ≡ some location
    ensure_each-saved separate zero session saved = saved
    ensure_each-saved separate (suc n) session saved =
        elim (ensure_authenticated_lem separate session) [
          | inl (_, unchanged) ↦
              rw (ensure_each, unchanged) (ensure_each-saved separate n session saved)
          | inr (_, asked) ↦
              rw (ensure_each, asked) (ensure_each-saved separate n (redirected session) refl)
        ]

    auth_callback-saved :
        ((base : Text) → urls.resolve location base ≡ location)
        → (after : Session B) (href : Text) → after.pre_auth_location ≡ some location
        → auth_callback urls href after ≡ location
    unfolding auth_callback
    auth_callback-saved absolute after href saved = rw (auth_callback, saved) (absolute _)

    -- Where no error is of all three classes at once, and the location, an absolute URL, stands for
    -- itself: after one or more requests of a user who is not signed in, one after another, whether
    -- or not they could redirect the user, the page that a login comes back to leads to the location
    -- again where they were made.
    pub auth_callback-ensure_authenticated :
        HasSeparateErrors
        → ((base : Text) → urls.resolve location base ≡ location)
        → (n : ℕ) (session : Session B) (href : Text) → ¬ IsSignedIn session.fief
        → auth_callback urls href (ensure_each (suc n) session) ≡ location
    auth_callback-ensure_authenticated separate absolute n session href out =
        elim (ensure_authenticated_lem separate session) [
          | inl (signed_in, _) ↦ absurd (out signed_in)
          | inr (_, asked) ↦
              auth_callback-saved absolute (ensure_each (suc n) session) href
                (rw (ensure_each, asked) (ensure_each-saved separate n (redirected session) refl))
        ]

    pub get_auth_token-IsSignedIn :
        (session : Session B) (signed_in : IsSignedIn session.fief)
        → get_auth_token urls location (some fief_auth) session
          ≡ (answered (some signed_in.0), session)
    unfolding get_auth_token
    get_auth_token-IsSignedIn session (token, stored, found, accepted) =
        rw (stored, found, accepted, found) refl
