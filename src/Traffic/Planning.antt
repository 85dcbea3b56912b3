-- ===== src/Traffic/Planning.antt =====
-- What the loops of netopsbench/platform/traffic/planner.py do to a plan: they reject candidates and
-- admit flows, and nothing else.
use net_ops_bench.Prelude.{
  ℕ, zero, suc, ◌+◌, ◌≡◌, refl, sym, subst, ◌∙◌, Bool, true, false, not, ◌&&◌, Option, none, some,
  List, [], ◌∷◌, ◌++◌, All, All-imp, Text, length, length-snoc, keep, leb, ltb, arith,
  if◌then◌else◌, Bool-cases, ◌⊎◌, inl, inr, Exn, Outcome, returned, raised, Action, proceed,
}
use mathlib.Core.List.{append_assoc}
use net_ops_bench.Traffic.{Rates, Client, Devices, Flow}
use net_ops_bench.Traffic.Planner.{
  candidate_destinations, Limits, Rejection, source_budget, destination_budget, pps_budget, Plan,
  outgoing, incoming, is_used, reject, insert_candidate, sort_candidates, build_candidate_flow,
  admission_error, admit_flow, candidate_pool, cyclic_rank, settled, considered, estimate_error,
  estimated, next_protocol, try_candidate, try_candidates, ordered_candidates, try_add_from_pool,
  visit, visit_all, rounds, no_flows, plan_traffic,
}

insert_candidate-All :
    (P : Client → Type 0) (key : Client → ℕ × ℕ) (c : Client) (cs : List Client)
    → P c
    → All P cs
    → All P (insert_candidate key c cs)
unfolding insert_candidate
insert_candidate-All P key c [] h hs = (h, tt)
insert_candidate-All P key c (d ∷ rest) h hs =
    ground (arith, insert_candidate-All P key c rest h hs.1)

pub sort_candidates-All :
    (P : Client → Type 0) (key : Client → ℕ × ℕ) (cs : List Client)
    → All P cs
    → All P (sort_candidates key cs)
unfolding sort_candidates
sort_candidates-All P key [] hs = tt
sort_candidates-All P key (c ∷ rest) hs =
    insert_candidate-All P key c (sort_candidates key rest) hs.0
      (sort_candidates-All P key rest hs.1)

kept_or_not :
    (P : Client → Type 0) (p : Client → Bool) (c : Client) (b : Bool)
    → p c ≡ b
    → (rest : List Client) → P c
    → All (λ d. (p d ≡ true) × P d) rest
    → All (λ d. (p d ≡ true) × P d) (elim b [ true ↦ c ∷ rest | false ↦ rest ])
kept_or_not P p c true e rest h hs = ((e, h), hs)
kept_or_not P p c false e rest h hs = hs

pub keep-All :
    (P : Client → Type 0) (p : Client → Bool) (cs : List Client)
    → All P cs
    → All (λ c. (p c ≡ true) × P c) (keep p cs)
keep-All P p [] hs = tt
keep-All P p (c ∷ rest) hs =
    kept_or_not P p c (p c) refl (keep p rest) hs.0 (keep-All P p rest hs.1)

unused_of_kept : (u b : Bool) → (not u && b) ≡ true → u ≡ false
unused_of_kept true b h = ground (arith, h)
unused_of_kept false b h = refl

is_used-reject :
    {R : Type 0} (e : Rejection) (plan : Plan R) (src dst : Text)
    → is_used (reject e plan) src dst ≡ is_used plan src dst
unfolding is_used reject
is_used-reject source_budget plan src dst = refl
is_used-reject destination_budget plan src dst = refl
is_used-reject pps_budget plan src dst = refl

module _ {R : Type 0} (rates : Rates R) (limits : Limits R) (devices : Devices)
    (estimate_flow_pps : Flow → R) where
  -- The flow was built for this pair, and every guard let it pass.
  abbrev pub IsAdmissible : Plan R → Client → Client → Flow → Type 0
  IsAdmissible plan src dst flow =
      (leb limits.listener_port_pool_size (incoming plan dst.name) ≡ false)
      × (build_candidate_flow limits plan.flow_id src dst
            (next_protocol rates limits devices estimate_flow_pps plan src)
            (limits.listener_port_base + incoming plan dst.name)
          ≡ returned flow)
      × (admission_error rates limits devices estimate_flow_pps plan flow ≡ none)

  abbrev pub Tried : Plan R → Client → Client → Outcome Bool × Plan R → Type 0
  Tried plan src dst out =
      ((flow : Flow) × IsAdmissible plan src dst flow
        × (out ≡ (returned true, admit_flow rates limits devices estimate_flow_pps flow plan)))
      ⊎ (((e : Rejection) × (out ≡ (returned false, reject e plan)))
          ⊎ ((e : Exn) × (out ≡ (raised e, plan))))

  settled-Tried :
      (src dst : Client) (plan : Plan R) (flow : Flow)
      → leb limits.listener_port_pool_size (incoming plan dst.name) ≡ false
      → build_candidate_flow limits plan.flow_id src dst
          (next_protocol rates limits devices estimate_flow_pps plan src)
          (limits.listener_port_base + incoming plan dst.name)
        ≡ returned flow
      → (error : Option Rejection)
      → admission_error rates limits devices estimate_flow_pps plan flow ≡ error
      → Tried plan src dst (settled rates limits devices estimate_flow_pps flow plan error)
  unfolding settled
  settled-Tried src dst plan flow room ok none passed = inl (flow, (room, ok, passed), refl)
  settled-Tried src dst plan flow room ok (some e) refused = inr (inl (e, refl))

  considered-Tried :
      (src dst : Client) (plan : Plan R)
      → leb limits.listener_port_pool_size (incoming plan dst.name) ≡ false
      → (built_ : Outcome Flow)
      → build_candidate_flow limits plan.flow_id src dst
          (next_protocol rates limits devices estimate_flow_pps plan src)
          (limits.listener_port_base + incoming plan dst.name)
        ≡ built_
      → Tried plan src dst (considered rates limits devices estimate_flow_pps plan built_)
  unfolding considered estimated
  considered-Tried src dst plan room (raised e) failed = inr (inr (e, refl))
  considered-Tried src dst plan room (returned flow) ok =
      read (estimate_error rates limits devices estimate_flow_pps plan flow)
    where
      read :
          (error : Option Exn)
          → Tried plan src dst (estimated rates limits devices estimate_flow_pps plan flow error)
      read (some e) = inr (inr (e, refl))
      read none =
          settled-Tried src dst plan flow room ok
            (admission_error rates limits devices estimate_flow_pps plan flow) refl

  guarded-Tried :
      (src dst : Client) (plan : Plan R) (full : Bool)
      → leb limits.listener_port_pool_size (incoming plan dst.name) ≡ full
      → Tried plan src dst (
          if full
          then (returned false, reject destination_budget plan)
          else considered rates limits devices estimate_flow_pps plan (
              build_candidate_flow limits plan.flow_id src dst
                (next_protocol rates limits devices estimate_flow_pps plan src)
                (limits.listener_port_base + incoming plan dst.name)))
  guarded-Tried src dst plan true e = inr (inl (destination_budget, refl))
  guarded-Tried src dst plan false room =
      considered-Tried src dst plan room
        (build_candidate_flow limits plan.flow_id src dst
          (next_protocol rates limits devices estimate_flow_pps plan src)
          (limits.listener_port_base + incoming plan dst.name))
        refl

  pub try_candidate-Tried :
      (src dst : Client) (plan : Plan R)
      → Tried plan src dst (try_candidate rates limits devices estimate_flow_pps src dst plan)
  unfolding try_candidate
  try_candidate-Tried src dst plan =
      guarded-Tried src dst plan (leb limits.listener_port_pool_size (incoming plan dst.name)) refl

if_not-Keeps :
    {S : Type 0} (P : S → Type 0) (k : Action S Bool) (out : Outcome Bool × S)
    → P out.1
    → ((t : S) → P t → P (k t).1)
    → P (proceed (λ done t. if done then (returned true, t) else k t) out).1
if_not-Keeps P k (returned true, s) h hk = h
if_not-Keeps P k (returned false, s) h hk = hk s h
if_not-Keeps P k (raised e, s) h hk = h

and_then-Keeps :
    {S : Type 0} (P : S → Type 0) (k : Action S Bool) (out : Outcome Bool × S)
    → P out.1
    → ((t : S) → P t → P (k t).1)
    → P (proceed (λ _ t. k t) out).1
and_then-Keeps P k (returned b, s) h hk = hk s h
and_then-Keeps P k (raised e, s) h hk = h

-- A property of plans that rejections and admissions keep holds of the plan in the end. `Pair` is what
-- is known of a client and each of its candidate destinations.
module _ {R : Type 0} (rates : Rates R) (limits : Limits R) (devices : Devices)
    (estimate_flow_pps : Flow → R) (P : Plan R → Type 0) (Pair : Client → Client → Type 0)
    (rejected : (e : Rejection) (plan : Plan R) → P plan → P (reject e plan))
    (admitted : (plan : Plan R) (src dst : Client) (flow : Flow)
      → P plan
      → Pair src dst
      → is_used plan src.name dst.name ≡ false
      → IsAdmissible rates limits devices estimate_flow_pps plan src dst flow
      → P (admit_flow rates limits devices estimate_flow_pps flow plan))
    (paired : (before rest : List Client) (src : Client)
      → devices.clients ≡ before ++ (src ∷ rest)
      → All (Pair src) (candidate_destinations devices.clients (length before) src)) where
  abbrev IsOpen : Plan R → Client → Client → Type 0
  IsOpen plan src dst = (is_used plan src.name dst.name ≡ false) × Pair src dst

  try_candidates-Keeps :
      (src : Client) (candidates : List Client) (plan : Plan R)
      → P plan
      → All (IsOpen plan src) candidates
      → P (try_candidates rates limits devices estimate_flow_pps src candidates plan).1
  unfolding try_candidates
  try_candidates-Keeps src [] plan h open_ = h
  try_candidates-Keeps src (dst ∷ rest) plan h open_ =
      elim (try_candidate-Tried rates limits devices estimate_flow_pps src dst plan) [
        | inl (flow, admissible, e) ↦
            rw e (admitted plan src dst flow h open_.0.1 open_.0.0 admissible)
        | inr (inl (why, e)) ↦ rw e (
            try_candidates-Keeps src rest (reject why plan) (rejected why plan h) (
              All-imp (IsOpen plan src) (IsOpen (reject why plan) src) rest
                (λ c o. (is_used-reject why plan src.name c.name ∙ o.0, o.1)) open_.1))
        | inr (inr (why, e)) ↦ rw e h
      ]

  candidate_pool-IsOpen :
      (cross : Bool) (src_idx : ℕ) (src : Client) (plan : Plan R)
      → All (Pair src) (candidate_destinations devices.clients src_idx src)
      → All
          (IsOpen plan src)
          (candidate_pool rates limits devices estimate_flow_pps cross src_idx src plan)
  unfolding candidate_pool
  candidate_pool-IsOpen cross src_idx src plan pairs =
      All-imp _ (IsOpen plan src)
        (candidate_pool rates limits devices estimate_flow_pps cross src_idx src plan)
        (λ c o. (unused_of_kept (is_used plan src.name c.name) _ o.0, o.1))
        (keep-All (Pair src) _ (candidate_destinations devices.clients src_idx src) pairs)

  try_add_from_pool-Keeps :
      (cross : Bool) (src_idx : ℕ) (src : Client) (plan : Plan R)
      → P plan
      → All (Pair src) (candidate_destinations devices.clients src_idx src)
      → P (try_add_from_pool rates limits devices estimate_flow_pps cross src_idx src plan).1
  unfolding try_add_from_pool ordered_candidates
  try_add_from_pool-Keeps cross src_idx src plan h pairs =
      try_candidates-Keeps src
        (ordered_candidates rates limits devices estimate_flow_pps cross src_idx src plan) plan h
        (sort_candidates-All (IsOpen plan src)
          (λ x. (
            incoming plan x.name,
            cyclic_rank
                (candidate_pool rates limits devices estimate_flow_pps cross src_idx src plan)
                x.name,
          ))
          (candidate_pool rates limits devices estimate_flow_pps cross src_idx src plan)
          (candidate_pool-IsOpen cross src_idx src plan pairs))

  visit-Keeps :
      (cross : Bool) (src_idx : ℕ) (src : Client) (plan : Plan R)
      → All (Pair src) (candidate_destinations devices.clients src_idx src)
      → P plan
      → P (visit rates limits devices estimate_flow_pps cross src_idx src plan).1
  unfolding visit
  visit-Keeps cross src_idx src plan pairs h =
      elim (Bool-cases (leb limits.flows_per_client (outgoing plan src.name))) [
        | inl full ↦ rw full (rejected source_budget plan h)
        | inr room ↦ rw room (
            if_not-Keeps P
              (try_add_from_pool rates limits devices estimate_flow_pps (not cross) src_idx src)
              (try_add_from_pool rates limits devices estimate_flow_pps cross src_idx src plan)
              (try_add_from_pool-Keeps cross src_idx src plan h pairs)
              (λ t ht. try_add_from_pool-Keeps (not cross) src_idx src t ht pairs))
      ]

  visit_all-Keeps :
      (cross : Bool) (before rest : List Client) (plan : Plan R)
      → devices.clients ≡ before ++ rest
      → P plan
      → P (visit_all rates limits devices estimate_flow_pps cross (length before) rest plan).1
  unfolding visit_all
  visit_all-Keeps cross before [] plan e h = h
  visit_all-Keeps cross before (src ∷ rest) plan e h =
      and_then-Keeps P
        (visit_all rates limits devices estimate_flow_pps cross (length before + 1) rest)
        (visit rates limits devices estimate_flow_pps cross (length before) src plan)
        (visit-Keeps cross (length before) src plan (paired before rest src e) h)
        (λ t ht.
          subst (λ n. P (visit_all rates limits devices estimate_flow_pps cross n rest t).1)
            (length-snoc before src)
            (visit_all-Keeps cross (before ++ (src ∷ [])) rest t
              (e ∙ sym (append_assoc before (src ∷ []) rest)) ht))

  rounds-Keeps :
      (round_index n : ℕ) (plan : Plan R)
      → P plan
      → P (rounds rates limits devices estimate_flow_pps round_index n plan).1
  unfolding rounds
  rounds-Keeps round_index zero plan h = h
  rounds-Keeps round_index (suc n) plan h =
      and_then-Keeps P (rounds rates limits devices estimate_flow_pps (round_index + 1) n)
        (visit_all rates limits devices estimate_flow_pps (ltb round_index 3) 0 devices.clients
          plan)
        (visit_all-Keeps (ltb round_index 3) [] devices.clients plan refl h)
        (λ t ht. rounds-Keeps (round_index + 1) n t ht)

  pub plan_traffic-Keeps :
      P (no_flows rates limits devices estimate_flow_pps)
      → P (plan_traffic rates limits devices estimate_flow_pps).1
  unfolding plan_traffic
  plan_traffic-Keeps h =
      rounds-Keeps 0 limits.flows_per_client (no_flows rates limits devices estimate_flow_pps) h
