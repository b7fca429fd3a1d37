-- ===== src/Verify/Passing.antt =====
-- What the checks of the quarantine and of event times in src/fleetstream/jobs/verify.py find in tables that
-- batches from Bronze have filled.
use mathlib.Core.Path.{subst}
use fleet_stream_real_time_f.Prelude.{
  ◌==◌, String, Option, none, some, Bool, true, false, List, [], ◌∷◌, length, ◌≡◌, ◌≢◌, ◌⊎◌, inl,
  inr, refl, sym, ap, ◌∙◌, Elem, All, AllDistinct, Bool-cases, arith,
}
use fleet_stream_real_time_f.Prelude.Int.{ℤ, ℤ, ltb_ℤ}
use fleet_stream_real_time_f.Quality.Rules.{Rule, rule_names}
use fleet_stream_real_time_f.Quality.Splitting.{Passes}
use fleet_stream_real_time_f.Silver.Rows.{BronzeRow, SilverRow, QuarantineRow}
use fleet_stream_real_time_f.Silver.Write.{Lake, Call}
use fleet_stream_real_time_f.Silver.Merge.{IsMerge}
use fleet_stream_real_time_f.Verify.Checks.{Check, fail, is_in}
use fleet_stream_real_time_f.Verify.Contents.{
  count, is_absent, is_unattributed, is_rejection, rejected_critically, has_leaked,
  check_quarantine, earlier, first_time, differ, is_altered, is_lagged, check_late_events,
}
use fleet_stream_real_time_f.Silver.Stream.{IsFed, batches}
use fleet_stream_real_time_f.Verify.Replay.{known_of}
use fleet_stream_real_time_f.Verify.Traced.{IsTraced, batches-IsTraced}

count-none :
    {A : Type 0} (test : A → Bool) (xs : List A)
    → ((x : A) → Elem x xs → test x ≡ false)
    → count test xs ≡ 0
unfolding count
count-none test [] h = refl
count-none test (x ∷ xs) h = rw (h x (inl refl)) (count-none test xs λ y e. h y (inr e))

rejected_critically-Elem :
    (k : Option String) (quarantine : List QuarantineRow)
    → Elem k (rejected_critically quarantine)
    → (q : QuarantineRow) × Elem q quarantine × (q.event_id ≡ k)
unfolding rejected_critically
rejected_critically-Elem k [] h = absurd h
rejected_critically-Elem k (q ∷ quarantine) h = elim (Bool-cases (is_rejection q.rule_severity)) [
  | inl critical ↦ elim (simp (critical) at h) [
    | inl e ↦ (q, inl refl, sym e)
    | inr later ↦ let (p, e, same) = rejected_critically-Elem k quarantine later in (p, inr e, same)
  ]
  | inr warning ↦
      let (p, e, same) = rejected_critically-Elem k quarantine (simp (warning) at h) in
      (p, inr e, same)
]

earlier-same : (t : Option ℤ) → earlier t t ≡ t
earlier-same none = refl
earlier-same (some t) = elim (Bool-cases (ltb_ℤ t t)) [
  | inl less ↦ simp (less) refl
  | inr not_less ↦ simp (not_less) refl
]

earlier-none : (t : Option ℤ) → earlier t none ≡ t
earlier-none none = refl
earlier-none (some t) = refl

earlier-of : (s rest t : Option ℤ) → s ≡ t → (rest ≡ none) ⊎ (rest ≡ t) → earlier s rest ≡ t
earlier-of s rest t e (inl empty) = ap (earlier s) empty ∙ earlier-none s ∙ e
earlier-of s rest t e (inr same) = ap (earlier s) same ∙ ap (λ x. earlier x t) e ∙ earlier-same t

-- the times of a group whose rows have one time
first_time-same :
    (id : String) (t : Option ℤ) (bronze : List BronzeRow)
    → ((b : BronzeRow) → Elem b bronze → b.reading.event_id ≡ some id → b.reading.event_time ≡ t)
    → (first_time id bronze ≡ none) ⊎ (first_time id bronze ≡ t)
unfolding first_time
first_time-same id t [] h = inl refl
first_time-same id t (b ∷ bronze) h = elim (Bool-cases (is_in b.reading.event_id (some id ∷ []))) [
  | inl member ↦ simp (member) (
      inr (
        earlier-of b.reading.event_time (first_time id bronze) t (at_time member)
          (first_time-same id t bronze later)))
  | inr other ↦ simp (other) (first_time-same id t bronze later)
]
  where
    later :
        (c : BronzeRow) → Elem c bronze → c.reading.event_id ≡ some id → c.reading.event_time ≡ t
    later c e = h c (inr e)

    at_time : is_in b.reading.event_id (some id ∷ []) ≡ true → b.reading.event_time ≡ t
    at_time member =
        let (j, e, here) = known_of b.reading.event_id (some id ∷ []) member in
        elim here [ inl same ↦ h b (inl refl) (e ∙ same) | inr empty ↦ absurd empty ]

differ-none : (s : Option ℤ) → differ s none ≡ false
differ-none none = refl
differ-none (some s) = refl

differ-same : (t : Option ℤ) → differ t t ≡ false
differ-same none = refl
differ-same (some t) = ground arith

differ-of : (s rest t : Option ℤ) → s ≡ t → (rest ≡ none) ⊎ (rest ≡ t) → differ s rest ≡ false
differ-of s rest t e (inl empty) = ap (differ s) empty ∙ differ-none s
differ-of s rest t e (inr same) = ap (differ s) same ∙ ap (λ x. differ x t) e ∙ differ-same t

unaltered :
    (bronze : List BronzeRow) (s : SilverRow) (o : Option String)
    → s.reading.event_id ≡ o
    → ((id : String) → o ≡ some id → differ s.reading.event_time (first_time id bronze) ≡ false)
    → is_altered bronze s ≡ false
unfolding is_altered
unaltered bronze s none h same = simp (h) refl
unaltered bronze s (some id) h same = simp (h) (same id refl)

late_events_pass :
    (bronze : List BronzeRow) (lake : Lake)
    → count (is_altered bronze) lake.silver ≡ 0
    → (check_late_events bronze lake).status ≢ fail
unfolding check_late_events
late_events_pass bronze lake h = elim (Bool-cases (count is_lagged lake.silver == 0)) [
  | inl empty ↦ simp (empty) (λ e. cc)
  | inr lagged ↦ simp (lagged, h) (λ e. cc)
]

quarantine_pass :
    (lake : Lake)
    → count is_unattributed lake.quarantine ≡ 0
    → count (has_leaked lake) lake.silver ≡ 0
    → All (λ (c : Check). c.status ≢ fail) (check_quarantine lake)
unfolding check_quarantine
quarantine_pass lake h k = elim (Bool-cases (length lake.quarantine == 0)) [
  | inl empty ↦ simp (empty) ((λ e. cc), tt)
  | inr full ↦ simp (full, h, k) ((λ e. cc), ((λ e. cc), tt))
]

module _ (evaluate : ℤ → String → BronzeRow → Option Bool) (rules : List Rule) (IsTime : ℤ → Type 0)
    (bronze : List BronzeRow) where
  -- The rows of Bronze that have one event_id have one time, and the critical rules accept all of them,
  -- at all of the times, or none.
  abbrev pub IsConsistent : Type 0
  IsConsistent =
      (k : String) (b c : BronzeRow) (now then : ℤ)
      → IsTime now
      → IsTime then
      → Elem b bronze
      → Elem c bronze
      → b.reading.event_id ≡ some k
      → c.reading.event_id ≡ some k
      → (b.reading.event_time ≡ c.reading.event_time)
        × (Passes (evaluate now) rules b → Passes (evaluate then) rules c)

  module _ (consistent : IsConsistent) (lake : Lake)
      (traced : IsTraced evaluate rules IsTime bronze lake) where
    unattributed-none : count is_unattributed lake.quarantine ≡ 0
    unattributed-none =
        count-none is_unattributed lake.quarantine
          λ q e. let (b, _, _, _, (reason, given)) = traced.quarantine q e in ap is_absent given

    leaked : (s : SilverRow) → Elem s lake.silver → has_leaked lake s ≡ true → ⊥
    leaked s e leak =
        let (k, named, there) =
          known_of s.reading.event_id (rejected_critically lake.quarantine) leak in
        let (q, in_quarantine, same) = rejected_critically-Elem (some k) lake.quarantine there in
        let (b, in_bronze, (now, at, passes), read) = traced.silver s e in
        let (c, c_in_bronze, (then, then_at, fails), id, _) = traced.quarantine q in_quarantine in
        fails (
          (consistent k b c now then at then_at in_bronze c_in_bronze
              (sym (ap (λ r. r.event_id) read) ∙ named) (sym id ∙ same)).1
            passes)

    leaked-none : count (has_leaked lake) lake.silver ≡ 0
    leaked-none = count-none (has_leaked lake) lake.silver λ s e.
        elim (Bool-cases (has_leaked lake s)) [
          | inl leak ↦ absurd (leaked s e leak)
          | inr safe ↦ safe
        ]

    times_agree :
        (s : SilverRow)
        → Elem s lake.silver
        → (id : String) → s.reading.event_id ≡ some id
        → differ s.reading.event_time (first_time id bronze) ≡ false
    times_agree s e id named =
        let (b, in_bronze, (now, at, _), read) = traced.silver s e in
        let time = ap (λ r. r.event_time) read in
        let mine = sym (ap (λ r. r.event_id) read) ∙ named in
        differ-of s.reading.event_time (first_time id bronze) s.reading.event_time refl (
          first_time-same id s.reading.event_time bronze
            λ c here same. (consistent id c b now now at at here in_bronze same mine).0 ∙ sym time)

    altered-none : count (is_altered bronze) lake.silver ≡ 0
    altered-none =
        count-none (is_altered bronze) lake.silver
          λ s e. unaltered bronze s s.reading.event_id refl (times_agree s e)

  -- With rules of distinct names and a lawful MERGE, after any sequence of batches of rows of Bronze into empty
  -- tables, no check of the quarantine and of event times fails: every rejection carries its reason, no event that a
  -- critical rule rejected is in Silver, and every row of Silver has the event time that Bronze has. The condition is
  -- that the rows of one event_id in Bronze agree on the time and on whether the critical rules accept them.
  pub batches-pass :
      (sha2 : String → String) (merge : List SilverRow → List SilverRow → Option (List SilverRow))
      (lawful : IsMerge merge)
      → AllDistinct (rule_names rules)
      → IsConsistent
      → (calls : List (Call evaluate rules sha2 merge × List BronzeRow)) (lake : Lake)
      → All (IsFed evaluate rules sha2 merge IsTime bronze) calls
      → lake.silver ≡ []
      → lake.quarantine ≡ []
      → let tables = batches evaluate rules sha2 merge calls lake in
        All
          (λ (c : Check). c.status ≢ fail)
          (check_late_events bronze tables ∷ check_quarantine tables)
  batches-pass sha2 merge lawful distinct consistent calls lake within no_silver no_quarantine =
      let tables = batches evaluate rules sha2 merge calls lake in
      let traced =
        batches-IsTraced evaluate rules sha2 merge lawful distinct IsTime bronze calls lake within
          (record {
            silver = λ s e. absurd (subst (Elem s) no_silver e);
            quarantine = λ q e. absurd (subst (Elem q) no_quarantine e);
          }) in
      (
        late_events_pass bronze tables (altered-none consistent tables traced),
        quarantine_pass tables (unattributed-none consistent tables traced)
            (leaked-none consistent tables traced),
      )
