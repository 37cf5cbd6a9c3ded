-- ===== src/Policy/Reads/Curl.antt =====
-- The arguments that `_is_read_only_health_curl` of remote_ops/policy.py accepts.
use incidentlens.Common.{
  String, true, false, ◌||◌, Option, none, some, is_some, List, [], ◌∷◌, Text, is, is_iff, codes,
  ◌≡◌, refl, ap, sym, subst, inl, inr, arith, Bool-cases,
}
use incidentlens.Policy.Parse.{Python}
use incidentlens.Policy.Reads.Loopback.{IsLoopback, is_loopback_http_url-IsLoopback}
use incidentlens.Policy.Reads.{
  is_one_of, is_option, CurlToken, silent, output, write_out, other, curl_token, curl_from,
  curl_after, is_read_only_health_curl,
}

-- Silent flags, output thrown away, the status code written out, and one URL.
pub data HealthCurl (py : Python) : Option Text → List Text → Type 0 where
  done : {url : Text} → IsLoopback py true url → HealthCurl py (some url) []
  quiet :
      {url : Option Text} {token : Text} {rest : List Text}
      → is_one_of token ("-s" ∷ "-S" ∷ "--silent" ∷ "--show-error" ∷ []) ≡ true
      → HealthCurl py url rest
      → HealthCurl py url (token ∷ rest)
  to_null :
      {url : Option Text} {token : Text} {rest : List Text}
      → is_one_of token ("-o" ∷ "--output" ∷ []) ≡ true
      → HealthCurl py url rest
      → HealthCurl py url (token ∷ codes "/dev/null" ∷ rest)
  status :
      {url : Option Text} {token : Text} {rest : List Text}
      → is_one_of token ("-w" ∷ "--write-out" ∷ []) ≡ true
      → HealthCurl py url rest
      → HealthCurl py url (token ∷ codes "%{http_code}" ∷ rest)
  at_url :
      {token : Text} {rest : List Text}
      → is_option token ≡ false
      → HealthCurl py (some token) rest
      → HealthCurl py none (token ∷ rest)

Says : Text → CurlToken → Type 0
Says token silent = is_one_of token ("-s" ∷ "-S" ∷ "--silent" ∷ "--show-error" ∷ []) ≡ true
Says token output = is_one_of token ("-o" ∷ "--output" ∷ []) ≡ true
Says token write_out = is_one_of token ("-w" ∷ "--write-out" ∷ []) ≡ true
Says token other = Unit {0}

curl_token-Says : (token : Text) → Says token (curl_token token)
unfolding curl_token Says
curl_token-Says token =
    elim (Bool-cases (is_one_of token ("-s" ∷ "-S" ∷ "--silent" ∷ "--show-error" ∷ []))) [
      | inl e ↦ rw e e
      | inr a ↦ elim (Bool-cases (is_one_of token ("-o" ∷ "--output" ∷ []))) [
        | inl e ↦ rw (a, e) e
        | inr b ↦ elim (Bool-cases (is_one_of token ("-w" ∷ "--write-out" ∷ []))) [
          | inl e ↦ rw (a, b, e) e
          | inr e ↦ rw (a, b, e) tt
        ]
      ]
    ]

abbrev Accepts : Python → List Text → Type 0
Accepts py xs =
    ((url : Option Text) → curl_from py url xs ≡ true → HealthCurl py url xs)
    × ((url : Option Text) (wanted : String)
        → curl_after py url wanted xs ≡ true
        → (rest : List Text) × (xs ≡ codes wanted ∷ rest) × HealthCurl py url rest)

url_at :
    (py : Python) (token : Text) (rest : List Text) (url : Option Text)
    → ((u : Option Text) → curl_from py u rest ≡ true → HealthCurl py u rest)
    → (is_option token || is_some url) ≡ false
    → curl_from py (some token) rest ≡ true
    → HealthCurl py url (token ∷ rest)
url_at py token rest none accepts e h = at_url (ground arith) (accepts (some token) h)
url_at py token rest (some u) accepts e h = absurd (ground arith)

Accepts-at :
    (py : Python) (token : Text) (rest : List Text) (k : CurlToken)
    → curl_token token ≡ k
    → Says token k
    → Accepts py rest
    → (url : Option Text) → curl_from py url (token ∷ rest) ≡ true
    → HealthCurl py url (token ∷ rest)
unfolding curl_from curl_after Says
Accepts-at py token rest silent e s accepts url h = quiet s (accepts.0 url (rw (curl_from, e) at h))
Accepts-at py token rest output e s accepts url h =
    let (after, same, tail) = accepts.1 url "/dev/null" (rw (curl_from, e) at h) in
    subst (λ xs. HealthCurl py url (token ∷ xs)) (sym same) (to_null s tail)
Accepts-at py token rest write_out e s accepts url h =
    let (after, same, tail) = accepts.1 url "%{http_code}" (rw (curl_from, e) at h) in
    subst (λ xs. HealthCurl py url (token ∷ xs)) (sym same) (status s tail)
Accepts-at py token rest other e s accepts url h =
    elim (Bool-cases (is_option token || is_some url)) [
      | inl q ↦ absurd (cc (rw (curl_from, e, q) at h))
      | inr q ↦ url_at py token rest url accepts.0 q (rw (curl_from, e, q) at h)
    ]

at_end : (py : Python) (url : Option Text) → curl_from py url [] ≡ true → HealthCurl py url []
unfolding curl_from
at_end py none h = absurd (cc h)
at_end py (some url) h = done (is_loopback_http_url-IsLoopback py true url h)

all-Accepts : (py : Python) (xs : List Text) → Accepts py xs
unfolding curl_from curl_after
all-Accepts py [] = (at_end py, λ url wanted h. absurd (cc h))
all-Accepts py (x ∷ xs) =
    let accepts = all-Accepts py xs in
    (
      Accepts-at py x xs (curl_token x) refl (curl_token-Says x) accepts,
      λ url wanted h. elim (Bool-cases (is x wanted)) [
        | inr e ↦ absurd (cc (rw (curl_after, e) at h))
        | inl e ↦
            (xs, ap (λ t. t ∷ xs) ((is_iff x wanted).0 e), accepts.0 url (rw (curl_after, e) at h))
      ],
    )

pub is_read_only_health_curl-HealthCurl :
    (py : Python) (arguments : List Text)
    → is_read_only_health_curl py arguments ≡ true
    → HealthCurl py none arguments
is_read_only_health_curl-HealthCurl py arguments h = (all-Accepts py arguments).0 none h
