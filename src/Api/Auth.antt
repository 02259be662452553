-- ===== src/Api/Auth.antt =====
-- api-client.ts: authentication, and auth-callback.ts, the page that a login comes back to. The Fief
-- client and the `URL` of the browser are parameters.
pub mod Login
use mallard.Common.{
  Text, codes, Option, none, some, Bool, true, false, ◌&&◌, ◌==◌, if◌then◌else◌, List, [], ◌∷◌,
  ◌++◌,
}

-- What a function that throws an error, or rejects with one, leaves.
pub data Answer (E : Type 0) (A : Type 0) : Type 0 where
  answered : A → Answer E A
  thrown : E → Answer E A

-- An asynchronous function on the state `S`, which keeps what was changed when it throws.
abbrev pub Async : Type 0 → Type 0 → Type 0 → Type 0
Async S E A = S → Answer E A × S

abbrev pub and_then : {S E A B : Type 0} → Answer E A × S → (A → Async S E B) → Answer E B × S
and_then (answered a, s) f = f a s
and_then (thrown err, s) f = (thrown err, s)

infixl 5 ◌>>=◌
abbrev pub ◌>>=◌ : {S E A B : Type 0} → Async S E A → (A → Async S E B) → Async S E B
◌>>=◌ m f s = and_then (m s) f

abbrev pub pure : {S E A : Type 0} → A → Async S E A
pure a s = (answered a, s)

abbrev pub throw : {S E A : Type 0} → E → Async S E A
throw err s = (thrown err, s)

-- `fiefAuth`, over what it stores. A validation or a login that does not fail gives `none`; the three
-- tests are `instanceof` of the classes of errors that the code names.
pub record FiefAuth (B : Type 0) (E : Type 0) : Type 0 where
  pub is_authenticated : B → Bool
  pub get_token_info : B → Option Text
  pub validate_access_token : Text → B → Option E
  pub redirect_to_login : Text → B → Option E × B
  pub is_expired : E → Bool
  pub is_invalid : E → Bool
  pub is_missing_scope : E → Bool

pub record UrlLibrary : Type 0 where
  -- `url.pathname = path; url.href`
  pub with_pathname : Text → Text → Text
  -- `new URL(url, base).href`
  pub resolve : Text → Text → Text

-- What Fief stores, `pre_auth_location` of the local storage, and the addresses that were given to
-- `redirectToLogin`.
pub record Session (B : Type 0) : Type 0 where
  pub fief : B
  pub pre_auth_location : Option Text
  pub logins : List Text

-- `location.split("?")[0]`
unfoldable pub before_query : Text → Text
before_query [] = []
before_query (c ∷ url) = let rest = before_query url in if c == b'?' then [] else c ∷ rest

-- Whether the saved token is valid. Without one the reading of `access_token` throws an error of
-- another class, which is caught too.
unfoldable pub auth_valid : {B E : Type 0} → FiefAuth B E → Async (Session B) E Bool
auth_valid fief_auth session =
    if fief_auth.is_authenticated session.fief
    then elim (fief_auth.get_token_info session.fief) [
      | none ↦ pure false session
      | some access_token ↦ elim (fief_auth.validate_access_token access_token session.fief) [
        | none ↦ pure true session
        | some err ↦
            if fief_auth.is_expired err
              && (fief_auth.is_invalid err && fief_auth.is_missing_scope err)
            then throw err session
            else pure false session
      ]
    ]
    else pure false session

-- What a step that may fail with an error leaves.
abbrev pub settled : {E : Type 0} → Option E → Answer E (Unit {0})
settled none = answered tt
settled (some err) = thrown err

abbrev pub headers : Option Text → List (Text × Text)
headers none = []
headers (some []) = []
headers (some (c ∷ token)) = (codes "Authorization", codes "Bearer " ++ c ∷ token) ∷ []

abbrev pub query_string : Option Text → Text
query_string none = []
query_string (some []) = []
query_string (some (c ∷ token)) = codes "auth_token=" ++ c ∷ token

module _ (urls : UrlLibrary) where
  unfoldable pub callback_url : Text → Text
  callback_url location =
      urls.resolve (codes "/auth_callback") (urls.with_pathname location (codes "/"))

  -- The page after a login at which nothing fails: where it leads to.
  unfoldable pub auth_callback : {B : Type 0} → Text → Session B → Text
  unfolding before_query
  auth_callback href session = elim session.pre_auth_location [
    | none ↦ urls.resolve (codes "../") (before_query href)
    | some pre_auth_location ↦ urls.resolve pre_auth_location (before_query href)
  ]

  module _ {B : Type 0} {E : Type 0} (location : Text) where
    -- The location is saved whether or not the login can be asked for.
    unfoldable pub redirect_to_login : FiefAuth B E → Async (Session B) E (Unit {0})
    unfolding callback_url
    redirect_to_login fief_auth session =
        let (refused, fief) = fief_auth.redirect_to_login (callback_url location) session.fief in
        (
          settled refused,
          record {
            fief = fief;
            pre_auth_location = some location;
            logins = session.logins ++ callback_url location ∷ [];
          },
        )

    -- What runs under the lock.
    authenticate : FiefAuth B E → Async (Session B) E (Unit {0})
    unfolding auth_valid redirect_to_login
    authenticate fief_auth = do
      valid ← auth_valid fief_auth
      if valid then pure tt else redirect_to_login fief_auth

    unfoldable pub ensure_authenticated : Option (FiefAuth B E) → Async (Session B) E (Unit {0})
    unfolding authenticate
    ensure_authenticated none = pure tt
    ensure_authenticated (some fief_auth) = authenticate fief_auth

    -- The saved token.
    abbrev token_info : FiefAuth B E → Async (Session B) E (Option Text)
    token_info fief_auth session = pure (fief_auth.get_token_info session.fief) session

    unfoldable pub get_auth_token : Option (FiefAuth B E) → Async (Session B) E (Option Text)
    unfolding ensure_authenticated
    get_auth_token none = pure none
    get_auth_token (some fief_auth) = do
      _ ← ensure_authenticated (some fief_auth)
      token_info fief_auth

    unfoldable pub get_auth_headers :
        Option (FiefAuth B E) → Async (Session B) E (List (Text × Text))
    unfolding get_auth_token
    get_auth_headers fief_auth = do token ← get_auth_token fief_auth; pure (headers token)

    unfoldable pub get_auth_query_string : Option (FiefAuth B E) → Async (Session B) E Text
    unfolding get_auth_token
    get_auth_query_string fief_auth = do token ← get_auth_token fief_auth; pure (query_string token)
