-- ===== src/Instance/Startup/Waiting.antt =====
-- The loop that probes a node ends, with the answer of the first probe that decides.
use antimony_backend.Base.{
  nat_eq, string_eq, ltb, nat_beq, ltb→lt, nat_beq_iff, Bool-cases, ℕ, zero, suc, ◌+◌, ◌*◌, ◌≤◌,
  ◌<◌, ◌≡◌, refl, subst, ◌⊎◌, inl, inr, true, false, Option, none, some, arith,
}
use antimony_backend.Errors.{Error}
use antimony_backend.Instance.Startup.{
  Verdict, started, retry, refused, judge, Probing, wait_for_node_started,
}

verdict : Probing → ℕ → Verdict
verdict p i = judge p.unexpected (p.exec i)

-- From probe i on, the loop goes on up to probe `last`, whose verdict or whose pause ends it.
pub record StopsAt (p : Probing) (i : ℕ) (r : Option (Option Error)) : Type 0 where
  pub last : ℕ
  pub later : i ≤ last
  pub retried :
      (j : ℕ) → i ≤ j → j < last → (judge p.unexpected (p.exec j) ≡ retry) × (p.done j ≡ false)
  pub decided :
      ((judge p.unexpected (p.exec last) ≡ started) × (r ≡ some none))
      ⊎ (((e : Error) × (judge p.unexpected (p.exec last) ≡ refused e) × (r ≡ some (some e)))
          ⊎ ((judge p.unexpected (p.exec last) ≡ retry)
              × (p.done last ≡ true)
              × (r ≡ some (some p.ctx_err))))

Verdict-cases : (v : Verdict) → (v ≡ started) ⊎ (((e : Error) × (v ≡ refused e)) ⊎ (v ≡ retry))
Verdict-cases started = inl refl
Verdict-cases (refused e) = inr (inl (e, refl))
Verdict-cases retry = inr (inr refl)

retry_first :
    (p : Probing) (i : ℕ) (r : Option (Option Error))
    → judge p.unexpected (p.exec i) ≡ retry
    → p.done i ≡ false
    → StopsAt p (suc i) r
    → StopsAt p i r
retry_first p i r again awake s = record {
  last = s.last;
  later = omega (arith, s.later);
  retried = λ j h k. elim (Bool-cases (nat_beq i j)) [
    | inl same ↦
        subst (λ x. (judge p.unexpected (p.exec x) ≡ retry) × (p.done x ≡ false))
          ((nat_beq_iff i j).0 same) (again, awake)
    | inr other ↦ s.retried j (ground (arith, h, other)) k
  ];
  decided = s.decided;
}

not_yet : (p : Probing) (i k : ℕ) → i ≤ k → p.done i ≡ false → p.done k ≡ true → suc i ≤ k
not_yet p i k h awake d = elim (Bool-cases (ltb i k)) [
  | inl before ↦ ltb→lt i k before
  | inr other ↦
      let same : i ≡ k = ground (arith, h, other) in
      absurd (cc (subst (λ x. p.done x ≡ false) same awake, d))
]

stops :
    (p : Probing) (fuel i k : ℕ)
    → i ≤ k
    → k < i + fuel
    → p.done k ≡ true
    → StopsAt p i (wait_for_node_started p fuel i)
unfolding wait_for_node_started
stops p zero i k h l d = absurd (omega arith)
stops p (suc fuel) i k h l d = elim (Verdict-cases (judge p.unexpected (p.exec i))) [
  | inl v ↦ record {
    last = i;
    later = omega arith;
    retried = λ j h k. absurd (omega (arith, h, k));
    decided = inl (v, rw (v, wait_for_node_started) refl);
  }
  | inr (inl (e, v)) ↦ record {
    last = i;
    later = omega arith;
    retried = λ j h k. absurd (omega (arith, h, k));
    decided = inr (inl (e, v, rw (v, wait_for_node_started) refl));
  }
  | inr (inr v) ↦ elim (Bool-cases (p.done i)) [
    | inl over ↦ record {
      last = i;
      later = omega arith;
      retried = λ j h k. absurd (omega (arith, h, k));
      decided = inr (inr (v, over, rw (v, over, wait_for_node_started) refl));
    }
    | inr awake ↦
        let here : wait_for_node_started p (suc fuel) i ≡ wait_for_node_started p fuel (suc i) =
          rw (v, awake, wait_for_node_started) refl in
        let k_later = not_yet p i k h awake d in
        rw (here) (retry_first p i _ v awake (stops p fuel (suc i) k k_later (omega (arith, l)) d))
  ]
]

-- If every round takes the two seconds of its pause and the context is done once 600 seconds are
-- over, then the loop has ended after at most 300 probes. It returns no error if the last probe
-- shows that the node has started, the probe's error if it was refused, and the context's error if
-- the context was done; all probes before the last were retried.
pub wait_for_node_started-StopsAt :
    (p : Probing) (clock : ℕ → ℕ)
    → ((i : ℕ) → 2 * suc i ≤ clock i)
    → ((i : ℕ) → 600 ≤ clock i → p.done i ≡ true)
    → StopsAt p 0 (wait_for_node_started p 300 0)
wait_for_node_started-StopsAt p clock pauses timeout =
    stops p 300 0 299 (omega arith) (omega arith) (timeout 299 (omega (arith, pauses 299)))
