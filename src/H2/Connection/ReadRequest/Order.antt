-- ===== src/H2/Connection/ReadRequest/Order.antt =====
-- The order of the headers of a request.
use qhttp.Base.{
  ℕ, suc, ◌+◌, ◌≡◌, true, false, List, [], ◌∷◌, ◌++◌, refl, ok, arith, length, length-append, All,
  refuse_if, or_err, >>=-ok, if-cases, inl, inr, ◌>>=◌, ◌>>◌, ap,
}
use qhttp.H2.Error.{H2Result}
use qhttp.H2.Connection.{Request, Surroundings}
use qhttp.H2.Connection.ReadRequest.{
  Headers, Building, empty, is_pseudo, stream_error, check_pseudo, add_header_line, pseudo_header,
  read_regular, read_headers,
}

module _ (out : Surroundings) where
  add_header_line-length :
      (req : Request) (key value : List ℕ) {req' : Request}
      → add_header_line out req key value ≡ ok req'
      → length req'.headers ≡ suc (length req.headers)
  unfolding add_header_line
  add_header_line-length req key value h =
      let (name, p, q) = >>=-ok (or_err (out.header_name key) stream_error) _ h in
      ground (arith, length-append req.headers ((name, value) ∷ []))

  -- A header list that is read has its regular headers last, all of them in the request.
  record Ordered (b : Building) (headers : Headers) (req : Request) : Type 0 where
    pseudo : Headers
    regular : Headers
    in_order : headers ≡ pseudo ++ regular
    all_pseudo : All (λ h. is_pseudo h.0 ≡ true) pseudo
    all_regular : All (λ h. is_pseudo h.0 ≡ false) regular
    kept : length req.headers ≡ length b.request.headers + length regular

  read_regular_lem :
      (headers : Headers) (req : Request) {req' : Request}
      → read_regular out req headers ≡ ok req'
      → All (λ h. is_pseudo h.0 ≡ false) headers
        × (length req'.headers ≡ length req.headers + length headers)
  unfolding read_regular
  read_regular_lem [] req h = (tt, ground arith)
  read_regular_lem ((key, value) ∷ rest) req h =
      let (u, p, q) = >>=-ok (refuse_if (is_pseudo key) stream_error) _ h in
      let (req₁, p₁, q₁) = >>=-ok (add_header_line out req key value) _ q in
      let (a, l) = read_regular_lem rest req₁ q₁ in
      ((ground (arith, p), a), omega (arith, l, add_header_line-length req key value p₁))

  pseudo_header-headers :
      (b : Building) (key value : List ℕ) {b' : Building}
      → pseudo_header out b key value ≡ ok b'
      → b'.request.headers ≡ b.request.headers
  unfolding pseudo_header
  pseudo_header-headers b key value h = ground arith

  read_headers_lem :
      (headers : Headers) (b : Building) {req : Request}
      → read_headers out b headers ≡ ok req
      → Ordered b headers req
  unfolding read_headers
  read_headers_lem [] b h = record {
    pseudo = [];
    regular = [];
    in_order = refl;
    all_pseudo = tt;
    all_regular = tt;
    kept = ground arith;
  }
  read_headers_lem ((key, value) ∷ rest) b {req} h =
      let more : H2Result Request =
        pseudo_header out b key value >>= λ b'. read_headers out b' rest in
      let last : H2Result Request =
        (check_pseudo b >> add_header_line out b.request key value) >>= λ r.
        read_regular out r rest in
      elim (if-cases (is_pseudo key) more last h) [
        | inl (e, p) ↦
            (let (b₁, q, r) = >>=-ok (pseudo_header out b key value) _ p in
              let o = read_headers_lem rest b₁ r in
              record {
                pseudo = (key, value) ∷ o.pseudo;
                regular = o.regular;
                in_order = ap (λ (hs : Headers). (key, value) ∷ hs) o.in_order;
                all_pseudo = (e, o.all_pseudo);
                all_regular = o.all_regular;
                kept = ground (arith, o.kept, pseudo_header-headers b key value q);
              })
        | inr (e, p) ↦
            (let (r₁, q, r) =
                >>=-ok (check_pseudo b >> add_header_line out b.request key value) _ p in
              let (u, q₁, q₂) = >>=-ok (check_pseudo b) _ q in
              let (a, l) = read_regular_lem rest r₁ r in
              record {
                pseudo = [];
                regular = (key, value) ∷ rest;
                in_order = refl;
                all_pseudo = tt;
                all_regular = (e, a);
                kept = omega (arith, l, add_header_line-length b.request key value q₂);
              })
      ]

  -- A header list that is read is one of pseudo headers, whose names begin with a colon, followed
  -- by one of other headers, and the request has as many headers as the second one.
  pub read_headers-order :
      (headers : Headers) (req : Request)
      → read_headers out empty headers ≡ ok req
      → (pseudo : Headers) × (regular : Headers) × (headers ≡ pseudo ++ regular)
        × All (λ h. is_pseudo h.0 ≡ true) pseudo
        × All (λ h. is_pseudo h.0 ≡ false) regular
        × (length req.headers ≡ length regular)
  read_headers-order headers req h =
      let o = read_headers_lem headers empty h in
      (o.pseudo, o.regular, o.in_order, o.all_pseudo, o.all_regular, omega (arith, o.kept))
