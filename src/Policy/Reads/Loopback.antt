-- ===== src/Policy/Reads/Loopback.antt =====
-- The URLs that `_is_loopback_http_url` of remote_ops/policy.py accepts.
use incidentlens.Common.{
  Bool, true, false, Option, none, some, [], ◌∷◌, Text, codes, ◌≡◌, refl, ap, ◌⊎◌, inl, inr, arith,
  Option-cases,
}
use incidentlens.Policy.Parse.{Python, SplitUrl}
use incidentlens.Policy.Reads.{
  is_given, is_loopback_host, is_empty_text, is_loopback_split, is_loopback_http_url, one_of_two,
  one_of_three,
}

abbrev IsMissing : Option Text → Type 0
IsMissing given = (given ≡ none) ⊎ (given ≡ some [])

-- The hosts of this machine.
abbrev IsLocal : Option Text → Type 0
IsLocal host =
    (host ≡ some (codes "localhost"))
    ⊎ (host ≡ some (codes "127.0.0.1"))
    ⊎ (host ≡ some (codes "::1"))

-- The paths: of a health request, and of the address alone.
abbrev IsPath : Bool → Text → Type 0
IsPath true path = (path ≡ codes "/health") ⊎ (path ≡ codes "/healthz")
IsPath false path = (path ≡ codes "") ⊎ (path ≡ codes "/")

pub record IsLoopback (py : Python) (health_only : Bool) (value : Text) : Type 0 where
  pub url : SplitUrl
  pub splits : py.urlsplit value ≡ some url
  pub scheme : (url.scheme ≡ codes "http") ⊎ (url.scheme ≡ codes "https")
  pub no_username : IsMissing url.username
  pub no_password : IsMissing url.password
  pub hostname : IsLocal url.hostname
  pub no_query : url.query ≡ []
  pub no_fragment : url.fragment ≡ []
  pub path : IsPath health_only url.path

is_given-IsMissing : (given : Option Text) → is_given given ≡ false → IsMissing given
is_given-IsMissing none h = inl refl
is_given-IsMissing (some []) h = inr refl
is_given-IsMissing (some (c ∷ text)) h = absurd (cc h)

is_loopback_host-IsLocal : (host : Option Text) → is_loopback_host host ≡ true → IsLocal host
is_loopback_host-IsLocal none h = absurd (cc h)
is_loopback_host-IsLocal (some host) h = elim (one_of_three host "localhost" "127.0.0.1" "::1" h) [
  | inl e ↦ inl (ap some e)
  | inr (inl e) ↦ inr (inl (ap some e))
  | inr (inr e) ↦ inr (inr (ap some e))
]

is_empty_text_lem : (text : Text) → is_empty_text text ≡ true → text ≡ []
is_empty_text_lem [] h = refl
is_empty_text_lem (c ∷ text) h = absurd (cc h)

split-IsPath :
    (health_only : Bool) (url : SplitUrl)
    → is_loopback_split health_only url ≡ true
    → IsPath health_only url.path
split-IsPath true url h = one_of_two url.path "/health" "/healthz" (ground arith)
split-IsPath false url h = one_of_two url.path "" "/" (ground arith)

pub is_loopback_http_url-IsLoopback :
    (py : Python) (health_only : Bool) (value : Text)
    → is_loopback_http_url py health_only value ≡ true
    → IsLoopback py health_only value
unfolding is_loopback_http_url
is_loopback_http_url-IsLoopback py health_only value h = elim (Option-cases (py.urlsplit value)) [
  | inl e ↦ absurd (cc (rw (is_loopback_http_url, e) at h))
  | inr (url, e) ↦
      let split : is_loopback_split health_only url ≡ true = rw (is_loopback_http_url, e) at h in
      record {
        url = url;
        splits = e;
        scheme = one_of_two url.scheme "http" "https" (ground arith);
        no_username = is_given-IsMissing url.username (ground arith);
        no_password = is_given-IsMissing url.password (ground arith);
        hostname = is_loopback_host-IsLocal url.hostname (ground arith);
        no_query = is_empty_text_lem url.query (ground arith);
        no_fragment = is_empty_text_lem url.fragment (ground arith);
        path = split-IsPath health_only url split;
      }
]
