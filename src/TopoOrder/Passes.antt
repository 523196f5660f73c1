-- ===== src/TopoOrder/Passes.antt =====
-- What the passes keep, and that they end.
use mathlib.Core.List.{Memᴰ}
use cronova.Base.{
  ℕ, zero, suc, ◌+◌, ◌≤◌, ◌<◌, ◌≡◌, ◌≢◌, refl, sym, ap, ◌∙◌, inl, inr, true, false, Bool-cases,
  ◌&&◌, List, [], ◌∷◌, ◌++◌, some, Text, text_eq_self, All, All-of_Memᴰ, keep, length,
  length-append, arith, subst,
}
use cronova.Dag.Model.{Task}
use cronova.TopoOrder.{Order, can_go, is_left, place, pass, goes_on, passes}

-- The names of `out` added to `seen`, the latest first.
abbrev pub after : List Task → List Text → List Text
after [] seen = seen
after (t ∷ r) seen = after r (t.id ∷ seen)

-- Each task comes after the known tasks that it depends on, or they are in `seen`.
abbrev pub Ordered : List Task → List Text → List Task → Type 0
Ordered ts seen [] = Unit
Ordered ts seen (t ∷ r) = (can_go ts seen t ≡ true) × Ordered ts (t.id ∷ seen) r

after-append :
    (out : List Task) (seen : List Text) (t : Task)
    → after (out ++ t ∷ []) seen ≡ t.id ∷ after out seen
after-append [] seen t = refl
after-append (u ∷ out) seen t = after-append out (u.id ∷ seen) t

Ordered-append :
    (ts out : List Task) (seen : List Text) (t : Task)
    → Ordered ts seen out
    → can_go ts (after out seen) t ≡ true
    → Ordered ts seen (out ++ t ∷ [])
Ordered-append ts [] seen t o c = (c, tt)
Ordered-append ts (u ∷ out) seen t o c = (o.0, Ordered-append ts out (u.id ∷ seen) t o.1 c)

-- How many tasks are still to be placed.
abbrev pub left : List Text → List Task → ℕ
left done ts = length (keep (is_left done) ts)

left-le : (done : List Text) (i : Text) (ts : List Task) → left (i ∷ done) ts ≤ left done ts
left-le done i [] = omega arith
left-le done i (t ∷ ts) = ground (arith, left-le done i ts)

left-lt :
    (done : List Text) (ts : List Task) (t : Task)
    → Memᴰ t ts
    → is_left done t ≡ true
    → left (t.id ∷ done) ts < left done ts
left-lt done [] t m l = elim m [ ]
left-lt done (u ∷ ts) t (Memᴰ.head e) l =
    let here : is_left done u ≡ true = rw (sym e) l in
    let gone : is_left (t.id ∷ done) u ≡ false =
      rw (ap (λ (x : Task). x.id) (sym e)) (rw (text_eq_self t.id) refl) in
    let less = left-le done t.id ts in ground arith
left-lt done (u ∷ ts) t (Memᴰ.tail m) l = ground (arith, left-lt done ts t m l)

pub record IsKept (ts : List Task) (s : Order) : Type 0 where
  pub follows : s.done ≡ after s.out []
  pub ordered : Ordered ts [] s.out
  pub counted : length s.out + left s.done ts ≤ length ts

-- A task that is left has a known dependency that is not placed.
abbrev pub Waits : List Task → List Text → Task → Type 0
Waits ts done t = is_left done t ≡ true → can_go ts done t ≡ false

-- From `s` to `s'` over the tasks `rest`.
pub record IsPassed (ts rest : List Task) (s s' : Order) : Type 0 where
  pub kept : IsKept ts s'
  pub grows : length s.out ≤ length s'.out
  pub more : s.progress ≡ false → s'.progress ≡ true → length s.out < length s'.out
  pub still : s'.progress ≡ false → s' ≡ s
  pub stuck : s'.progress ≡ false → All (Waits ts s'.done) rest

place-no :
    (ts : List Task) (t : Task) (s : Order)
    → is_left s.done t && can_go ts s.done t ≡ false
    → place ts t s ≡ s
unfolding place
place-no ts t s n = rw n refl

place-IsKept :
    (ts : List Task) (t : Task) (s : Order) → Memᴰ t ts → IsKept ts s → IsKept ts (place ts t s)
unfolding place
place-IsKept ts t s m k = elim (Bool-cases (is_left s.done t && can_go ts s.done t)) [
  | inr n ↦ rw n k
  | inl y ↦
      (let l : is_left s.done t ≡ true = ground arith in
        let c : can_go ts s.done t ≡ true = ground arith in
        let less = left-lt s.done ts t m l in
        rw y (record {
          follows = ap (λ (d : List Text). t.id ∷ d) (k.follows) ∙ sym (after-append s.out [] t);
          ordered = Ordered-append ts s.out [] t k.ordered (rw (sym (k.follows)) c);
          counted = omega (arith, k.counted, length-append s.out (t ∷ []));
        }))
]

place-yes :
    (ts : List Task) (t : Task) (s : Order)
    → is_left s.done t && can_go ts s.done t ≡ true
    → (length (place ts t s).out ≡ suc (length s.out)) × ((place ts t s).progress ≡ true)
unfolding place
place-yes ts t s y = rw y (omega (arith, length-append s.out (t ∷ [])), refl)

pass-IsPassed :
    (ts rest : List Task) (s : Order)
    → All (λ t. Memᴰ t ts) rest
    → IsKept ts s
    → IsPassed ts rest s (pass ts rest s)
unfolding pass
pass-IsPassed ts [] s m k = record {
  kept = k;
  grows = omega arith;
  more = λ f t. absurd (cc);
  still = λ f. refl;
  stuck = λ f. tt;
}
pass-IsPassed ts (t ∷ rest) s m k =
    let p = pass-IsPassed ts rest (place ts t s) m.1 (place-IsKept ts t s m.0 k) in
    let s' = pass ts rest (place ts t s) in
    elim (Bool-cases (is_left s.done t && can_go ts s.done t)) [
      | inl y ↦
          (let (more, on) = place-yes ts t s y in
            let idle : s'.progress ≢ false = λ f.
              (let b : false ≡ true = sym f ∙ ap (λ (o : Order). o.progress) (p.still f) ∙ on in
                absurd (cc)) in
            record {
              kept = p.kept;
              grows = omega (arith, p.grows);
              more = λ _ _. omega (arith, p.grows);
              still = λ f. absurd (idle f);
              stuck = λ f. absurd (idle f);
            })
      | inr n ↦
          (let same = place-no ts t s n in
            let as_long : length (place ts t s).out ≡ length s.out =
              ap (λ (o : Order). length o.out) same in
            let waits : Waits ts s.done t = λ l. ground arith in
            record {
              kept = p.kept;
              grows = omega (arith, p.grows);
              more = λ f g. omega (arith, p.more (ap (λ (o : Order). o.progress) same ∙ f) g);
              still = λ f. p.still f ∙ same;
              stuck = λ f. (
                subst (λ (o : Order). Waits ts o.done t) (sym (p.still f ∙ same)) waits,
                p.stuck f,
              );
            })
    ]

pub All-self : (ts : List Task) → All (λ t. Memᴰ t ts) ts
All-self ts = All-of_Memᴰ ts (λ t m. m)

-- Nothing is left, or what is left waits.
pub record IsOver (ts : List Task) (s : Order) : Type 0 where
  pub kept : IsKept ts s
  pub over : All (Waits ts s.done) ts

-- When as many are placed as there are, none is left.
left-zero : (done : List Text) (ts : List Task) → left done ts ≡ 0 → All (Waits ts done) ts
left-zero done ts z = All-of_Memᴰ ts (λ t m l. absurd (omega (arith, left-lt done ts t m l)))

pub passes-IsOver :
    (ts : List Task) (fuel : ℕ) (s : Order)
    → IsKept ts s
    → (s.progress ≡ false → All (Waits ts s.done) ts)
    → 1 ≤ fuel
    → (s.progress ≡ true → length ts + 2 ≤ fuel + length s.out)
    → (s' : Order) × (passes ts fuel s ≡ some s') × IsOver ts s'
unfolding passes
passes-IsOver ts zero s k w p f = absurd (omega arith)
passes-IsOver ts (suc fuel) s k w p f = elim (Bool-cases (goes_on ts s)) [
  | inr stop ↦ (
    s,
    rw stop refl,
    record {
      kept = k;
      over = elim (Bool-cases s.progress) [
        | inr f' ↦ w f'
        | inl t ↦ (let c = k.counted in left-zero s.done ts (ground arith))
      ];
    },
  )
  | inl go ↦
      (let s0 = record s { progress = false } in
        let q =
          pass-IsPassed ts ts s0 (All-self ts)
            (record { follows = k.follows; ordered = k.ordered; counted = k.counted }) in
        let s' = pass ts ts s0 in
        let (s'', e, o) =
          passes-IsOver ts fuel s' q.kept q.stuck (ground arith)
            (λ t. (let m = q.more refl t in ground arith)) in
        (s'', rw go e, o))
]
