-- ===== src/Session/Address.antt =====
-- The address of a page leads to the page.
use cronova.Base.{
  ◌≡◌, refl, Bool, true, false, not, [], ◌∷◌, ◌++◌, all, Option, none, some, Text, codes, text_eq,
  is_empty, is_alnum, is_digit, split, split_from-end, split_from-sep, strip_prefix, ◌==◌, arith,
}
use cronova.Session.Route.{
  Page, dags, wizard, pools, resources, graph, audit, workers, api_page, run, dag, task, after_hash,
  decode_all, segments, plain_page, dag_page, page_of, apply_route, address,
}

-- A name that is not empty, and a word of letters and digits other than the default tab.
abbrev pub IsNamed : Text → Type 0
IsNamed s = is_empty s ≡ false

abbrev pub IsTab : Text → Type 0
IsTab t = (is_empty t ≡ false) × (all is_alnum t ≡ true) × (text_eq t (codes "runs") ≡ false)

-- The pages that have an address of their own.
abbrev pub IsAddressed : Page → Type 0
IsAddressed (run i) = IsNamed i
IsAddressed (dag d none) = IsNamed d
IsAddressed (dag d (some t)) = IsNamed d × IsTab t
IsAddressed (task d k) = IsNamed d × IsNamed k
IsAddressed p = Unit

abbrev no_slash : Text → Bool
no_slash s = all (λ c. not (c == b'/')) s

no_slash-alnum : (t : Text) → all is_alnum t ≡ true → no_slash t ≡ true
unfolding is_alnum is_digit
no_slash-alnum [] h = refl
no_slash-alnum (c ∷ t) h = ground (arith, no_slash-alnum t)

split-last : (s : Text) → no_slash s ≡ true → split b'/' s ≡ s ∷ []
unfolding split
split-last s h = split_from-end b'/' s [] h

split-cons :
    (s rest : Text) → no_slash s ≡ true → split b'/' (s ++ b'/' ∷ rest) ≡ s ∷ split b'/' rest
unfolding split
split-cons s rest h = split_from-sep b'/' s rest [] h

module _ (encode : Text → Text) (decode : Text → Option Text)
    (decode-encode : (s : Text) → decode (encode s) ≡ some s)
    (encode-no_slash : (s : Text) → all (λ c. not (c == b'/')) (encode s) ≡ true)
    (decode-alnum : (s : Text) → all is_alnum s ≡ true → decode s ≡ some s) where
  one :
      (w : Text)
      → all is_alnum w ≡ true
      → is_empty w ≡ false
      → segments decode (codes "#/" ++ w) ≡ some (w ∷ [])
  unfolding segments after_hash strip_prefix decode_all
  one w a n = rw (split-last w (no_slash-alnum w a), decode-alnum w a, n) refl

  two :
      (w i : Text)
      → all is_alnum w ≡ true
      → is_empty w ≡ false
      → IsNamed i
      → segments decode (codes "#/" ++ (w ++ b'/' ∷ encode i)) ≡ some (w ∷ i ∷ [])
  unfolding segments after_hash strip_prefix decode_all
  two w i a n h =
      rw
        (
          split-cons w (encode i) (no_slash-alnum w a),
          split-last (encode i) (encode-no_slash i),
          decode-alnum w a,
          decode-encode i,
          n,
          h,
        )
        refl

  three :
      (w i t : Text)
      → all is_alnum w ≡ true
      → is_empty w ≡ false
      → IsNamed i
      → all is_alnum t ≡ true
      → is_empty t ≡ false
      → segments decode (codes "#/" ++ (w ++ b'/' ∷ (encode i ++ b'/' ∷ t))) ≡ some (w ∷ i ∷ t ∷ [])
  unfolding segments after_hash strip_prefix decode_all
  three w i t a n h b m =
      rw
        (
          split-cons w (encode i ++ b'/' ∷ t) (no_slash-alnum w a),
          split-cons (encode i) t (encode-no_slash i),
          split-last t (no_slash-alnum t b),
          decode-alnum w a,
          decode-encode i,
          decode-alnum t b,
          n,
          h,
          m,
        )
        refl

  four :
      (w i t k : Text)
      → all is_alnum w ≡ true
      → is_empty w ≡ false
      → IsNamed i
      → all is_alnum t ≡ true
      → is_empty t ≡ false
      → IsNamed k
      → segments decode (codes "#/" ++ (w ++ b'/' ∷ (encode i ++ b'/' ∷ (t ++ b'/' ∷ encode k))))
        ≡ some (w ∷ i ∷ t ∷ k ∷ [])
  unfolding segments after_hash strip_prefix decode_all
  four w i t k a n h b m g =
      rw
        (
          split-cons w (encode i ++ b'/' ∷ (t ++ b'/' ∷ encode k)) (no_slash-alnum w a),
          split-cons (encode i) (t ++ b'/' ∷ encode k) (encode-no_slash i),
          split-cons t (encode k) (no_slash-alnum t b),
          split-last (encode k) (encode-no_slash k),
          decode-alnum w a,
          decode-encode i,
          decode-alnum t b,
          decode-encode k,
          n,
          h,
          m,
          g,
        )
        refl

  -- The address that a page sets leads back to the page, where `decode` undoes `encode` and leaves
  -- letters and digits as they are, and an encoded text has no slash.
  pub apply_route-address :
      (p : Page) → IsAddressed p → apply_route decode (address encode p) ≡ some p
  unfolding apply_route address page_of plain_page dag_page text_eq is_alnum is_digit
  apply_route-address dags h = rw (one (codes "dags") refl refl) refl
  apply_route-address wizard h = rw (one (codes "new") refl refl) refl
  apply_route-address pools h = rw (one (codes "pools") refl refl) refl
  apply_route-address resources h = rw (one (codes "resources") refl refl) refl
  apply_route-address graph h = rw (one (codes "graph") refl refl) refl
  apply_route-address audit h = rw (one (codes "audit") refl refl) refl
  apply_route-address workers h = rw (one (codes "workers") refl refl) refl
  apply_route-address api_page h = rw (one (codes "api") refl refl) refl
  apply_route-address (run i) h = rw (two (codes "run") i refl refl h) refl
  apply_route-address (dag d none) h = rw (two (codes "dag") d refl refl h) refl
  apply_route-address (dag d (some t)) h =
      rw (h.1.0, h.1.2, three (codes "dag") d t refl refl h.0 h.1.1 h.1.0) refl
  apply_route-address (task d k) h =
      rw (four (codes "dag") d (codes "task") k refl refl h.0 refl refl h.1) refl
