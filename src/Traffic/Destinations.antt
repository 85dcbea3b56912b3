-- ===== src/Traffic/Destinations.antt =====
-- The candidate destinations of a client are other clients (candidate_destinations of
-- netopsbench/platform/traffic/planner.py).
use net_ops_bench.Prelude.{
  ℕ, zero, suc, ◌+◌, ◌-◌, ◌%◌, ◌≤◌, ◌<◌, ◌≡◌, ◌≢◌, sym, ap, subst, ◌∙◌, false, List, [], ◌∷◌, ◌++◌,
  All, text_eq, text_eq_comm, length, length-append, ltb, arith, Bool-cases, inl, inr,
}
use native.Mathlib.Nat.{mod-eq_of_lt, mod-eq-sub-mod}
use net_ops_bench.Traffic.{Client}
use net_ops_bench.Traffic.Planner.{client_at, destinations_from}

-- No two clients have the same name.
abbrev pub AreDistinct : List Client → Type 0
AreDistinct [] = Unit
AreDistinct (c ∷ rest) = All (λ d. text_eq c.name d.name ≡ false) rest × AreDistinct rest

All-middle :
    (P : Client → Type 0) (before : List Client) (c : Client) (rest : List Client)
    → All P (before ++ (c ∷ rest))
    → P c
All-middle P [] c rest h = h.0
All-middle P (b ∷ before) c rest h = All-middle P before c rest h.1

pub client_at-All :
    (P : Client → Type 0) (other : Client) (index : ℕ) (cs : List Client)
    → index < length cs
    → All P cs
    → P (client_at other index cs)
unfolding client_at
client_at-All P other index [] h hs = ground (arith, h)
client_at-All P other zero (c ∷ rest) h hs = hs.0
client_at-All P other (suc index) (c ∷ rest) h hs =
    client_at-All P other index rest (omega (arith, h)) hs.1

-- A client apart from one of a distinct list at another place.
client_at-apart :
    (other : Client) (before : List Client) (src : Client) (rest : List Client) (index : ℕ)
    → AreDistinct (before ++ (src ∷ rest))
    → index < length (before ++ (src ∷ rest))
    → index ≢ length before
    → text_eq src.name (client_at other index (before ++ (src ∷ rest))).name ≡ false
unfolding client_at
client_at-apart other [] src rest zero h lt ne = ground (arith, ne)
client_at-apart other [] src rest (suc index) h lt ne =
    client_at-All (λ d. text_eq src.name d.name ≡ false) other index rest (omega (arith, lt)) h.0
client_at-apart other (b ∷ before) src rest zero h lt ne =
    text_eq_comm src.name b.name
    ∙ All-middle (λ d. text_eq b.name d.name ≡ false) before src rest h.0
client_at-apart other (b ∷ before) src rest (suc index) h lt ne =
    client_at-apart other before src rest index h.1 (omega (arith, lt)) (λ e. ne (ap suc e))

-- A step of less than a full turn around a list ends in the list, and elsewhere.
turn-elsewhere : (i o n : ℕ) → i < n → 1 ≤ o → o < n → ((i + o) % n < n) × ((i + o) % n ≢ i)
turn-elsewhere i o n hi ho hn = elim (Bool-cases (ltb (i + o) n)) [
  | inl small ↦
      let e = mod-eq_of_lt {n = i + o} {m = n} (ground (arith, small)) in
      (ground (arith, e, hi, ho, hn, small), ground (arith, e, hi, ho, hn, small))
  | inr big ↦
      let e = mod-eq-sub-mod {n = i + o} {m = n} (ground (arith, big)) in
      let f = mod-eq_of_lt {n = i + o - n} {m = n} (ground (arith, big, hi, hn)) in
      (ground (arith, e, f, hi, ho, hn, big), ground (arith, e, f, hi, ho, hn, big))
]

pub destinations-apart :
    (clients before rest : List Client) (src : Client) (offset n : ℕ)
    → clients ≡ before ++ (src ∷ rest)
    → AreDistinct clients
    → 1 ≤ offset
    → offset + n ≤ length clients
    → All
        (λ d. text_eq src.name d.name ≡ false)
        (destinations_from clients src (length before) offset n)
unfolding destinations_from
destinations-apart clients before rest src offset zero e h lo hi = tt
destinations-apart clients before rest src offset (suc n) e h lo hi =
    let size = length-append before (src ∷ rest) in
    let turn =
      turn-elsewhere (length before) offset (length clients) (rw e (omega (arith, size))) lo
        (omega (arith, hi)) in
    (
      subst
          (λ cs.
            text_eq src.name (client_at src ((length before + offset) % length clients) cs).name
            ≡ false)
          (sym e)
          (client_at-apart src before src rest ((length before + offset) % length clients)
            (subst AreDistinct e h)
            (subst (λ cs. (length before + offset) % length clients < length cs) e turn.0) turn.1),
      destinations-apart clients before rest src (offset + 1) n e h (omega (arith, lo))
          (omega (arith, hi)),
    )
