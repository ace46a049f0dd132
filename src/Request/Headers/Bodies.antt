-- ===== src/Request/Headers/Bodies.antt =====
-- Which body a request announces.
use qhttp.Base.{
  ℕ, ◌≡◌, ◌<◌, ◌⊎◌, inl, inr, ◌↔◌, refl, Bool, true, false, not, Bool-cases, List, Option, none,
  some, Result, ok, err, panic, ◌>>=◌, ◌>>◌, refuse_if, or_err, arith, ltb, if◌then◌else◌,
  same_bytes, same_bytes_self, same_bytes-eq, IoResult, IoError,
}
use qhttp.Ranges.{parse_u64}
use qhttp.Request.Headers.{
  Http, BodyType, no_body, fixed, chunked, transfer_encoding, content_length, chunked_text,
  or_other, first, announced_body, determine_body_type,
}

abbrev Gives : BodyType → BodyType → Type 0
Gives a b = let result : IoResult BodyType = ok a in result ≡ ok b

module _ (http : Http) where
  open http use {Request, HeaderValue, is_safe, get_all, to_str}

  abbrev pub encoding : Request → Option HeaderValue
  encoding req = first (get_all req transfer_encoding)

  -- The first Content-Length header is a text that stands for `len`.
  abbrev pub HasLength : Request → ℕ → Type 0
  HasLength req len =
      (value : HeaderValue) × (text : List ℕ) × (first (get_all req content_length) ≡ some value)
      × (to_str value ≡ some text)
      × (parse_u64 text ≡ ok len)

  -- What the headers of a request say of its body.
  abbrev pub Announces : Request → BodyType → Type 0
  Announces req no_body =
      (is_safe req ≡ true)
      ⊎ ((is_safe req ≡ false)
          × (encoding req ≡ none)
          × ((first (get_all req content_length) ≡ none) ⊎ HasLength req 0))
  Announces req (fixed len) =
      (is_safe req ≡ false) × (encoding req ≡ none) × HasLength req len × (0 < len)
  Announces req chunked =
      (is_safe req ≡ false)
      × (value : HeaderValue) × (encoding req ≡ some value)
      × (to_str value ≡ some chunked_text)

  announced : (req : Request) (b : BodyType) → Announces req b → determine_body_type http req ≡ ok b
  unfolding determine_body_type announced_body
  announced req no_body (inl safe) = rw safe refl
  announced req no_body (inr (unsafe, plain, inl silent)) =
      rw (unsafe, plain, announced_body, silent) refl
  announced req no_body (inr (unsafe, plain, inr (value, text, e, t, p))) =
      rw (unsafe, plain, announced_body, e, t, p) refl
  announced req (fixed len) (unsafe, plain, (value, text, e, t, p), some_bytes) =
      let positive : ltb 0 len ≡ true = ground (arith, some_bytes) in
      rw (unsafe, plain, announced_body, e, t, p, positive) refl
  announced req chunked (unsafe, value, e, t) = rw (unsafe, e, t, same_bytes_self chunked_text) refl

  -- A request without a transfer encoding.
  with_length :
      (req : Request) (cl : Option HeaderValue) (b : BodyType)
      → is_safe req ≡ false
      → encoding req ≡ none
      → first (get_all req content_length) ≡ cl
      → announced_body http req no_body ≡ ok b
      → Announces req b
  unfolding announced_body
  with_length req none b unsafe plain e h =
      let silent : Gives no_body b = rw (announced_body, e) at h in by_result b silent
    where
      by_result : (b : BodyType) → Gives no_body b → Announces req b
      by_result no_body k = inr (unsafe, plain, inl e)
      by_result (fixed len) k = absurd cc
      by_result chunked k = absurd cc
  with_length req (some value) b unsafe plain e h =
      by_text (to_str value) refl (rw (announced_body, e) at h)
    where
      by_sign :
          (text : List ℕ) (len : ℕ) (sign : Bool) (b : BodyType)
          → to_str value ≡ some text
          → parse_u64 text ≡ ok len
          → ltb 0 len ≡ sign
          → Gives (if sign then fixed len else no_body) b
          → Announces req b
      by_sign text len false no_body t p z k =
          let zero_bytes : len ≡ 0 = ground (arith, z) in
          inr (unsafe, plain, inr (value, text, e, t, rw (← zero_bytes) p))
      by_sign text len false (fixed n) t p z k = absurd cc
      by_sign text len false chunked t p z k = absurd cc
      by_sign text len true no_body t p z k = absurd cc
      by_sign text len true (fixed n) t p z k =
          let same : len ≡ n = cc in
          (unsafe, plain, (value, text, e, t, rw (← same) p), ground (arith, z, same))
      by_sign text len true chunked t p z k = absurd cc

      by_number :
          (text : List ℕ) (r : Result (Unit {0}) ℕ)
          → to_str value ≡ some text
          → parse_u64 text ≡ r
          → (or_other r >>= λ len. ok (if ltb 0 len then fixed len else no_body)) ≡ ok b
          → Announces req b
      by_number text (ok len) t p k = by_sign text len (ltb 0 len) b t p refl k
      by_number text (err x) t p k = absurd cc
      by_number text panic t p k = absurd cc

      by_text :
          (o : Option (List ℕ))
          → to_str value ≡ o
          → (or_err o IoError.other >>= λ text.
              or_other (parse_u64 text) >>= λ len. ok (if ltb 0 len then fixed len else no_body))
            ≡ ok b
          → Announces req b
      by_text none t k = absurd cc
      by_text (some text) t k = by_number text (parse_u64 text) t refl k

  -- A request with a transfer encoding.
  with_encoding :
      (req : Request) (value : HeaderValue) (b : BodyType)
      → is_safe req ≡ false
      → encoding req ≡ some value
      → (or_err (to_str value) IoError.other >>= λ text.
          refuse_if (not (same_bytes text chunked_text)) IoError.invalid_data >> ok chunked)
        ≡ ok b
      → Announces req b
  with_encoding req value b unsafe e h = by_text (to_str value) refl h
    where
      by_result :
          (text : List ℕ) (b : BodyType)
          → to_str value ≡ some text
          → same_bytes text chunked_text ≡ true
          → Gives chunked b
          → Announces req b
      by_result text no_body t s k = absurd cc
      by_result text (fixed len) t s k = absurd cc
      by_result text chunked t s k = (unsafe, value, e, rw (← same_bytes-eq text chunked_text s) t)

      by_text :
          (o : Option (List ℕ))
          → to_str value ≡ o
          → (or_err o IoError.other >>= λ text.
              refuse_if (not (same_bytes text chunked_text)) IoError.invalid_data >> ok chunked)
            ≡ ok b
          → Announces req b
      by_text none t k = absurd cc
      by_text (some text) t k = elim (Bool-cases (same_bytes text chunked_text)) [
        | inl s ↦ by_result text b t s (rw s at k)
        | inr s ↦ absurd (let k' = rw s at k in cc)
      ]

  told : (req : Request) (b : BodyType) → determine_body_type http req ≡ ok b → Announces req b
  unfolding determine_body_type
  told req b h = elim (Bool-cases (is_safe req)) [
    | inl safe ↦ by_safe b safe (rw safe at h)
    | inr unsafe ↦ by_encoding (encoding req) refl unsafe (rw unsafe at h)
  ]
    where
      by_safe : (b : BodyType) → is_safe req ≡ true → Gives no_body b → Announces req b
      by_safe no_body safe k = inl safe
      by_safe (fixed len) safe k = absurd cc
      by_safe chunked safe k = absurd cc

      by_encoding :
          (te : Option HeaderValue)
          → encoding req ≡ te
          → is_safe req ≡ false
          → elim te [
            | some value ↦ or_err (to_str value) IoError.other >>= λ text.
                refuse_if (not (same_bytes text chunked_text)) IoError.invalid_data >> ok chunked
            | none ↦ announced_body http req no_body
          ]
            ≡ ok b
          → Announces req b
      by_encoding none e unsafe k =
          with_length req (first (get_all req content_length)) b unsafe e refl k
      by_encoding (some value) e unsafe k = with_encoding req value b unsafe e k

  -- The body of a request is what its headers announce: none for a safe method, or when there is
  -- neither a transfer encoding nor a length above zero; one in chunks exactly if the method is not
  -- safe and the first transfer encoding is "chunked", whatever the length; one of `len` bytes exactly
  -- if the method is not safe, there is no transfer encoding, and the first Content-Length is `len`,
  -- above zero. All other headers are refused.
  pub determine_body_type_iff :
      (req : Request) (b : BodyType) → (determine_body_type http req ≡ ok b) ↔ Announces req b
  determine_body_type_iff req b = (told req b, announced req b)
