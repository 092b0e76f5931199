-- ===== src/Lanes/Single.antt =====
-- The unfinished jobs of each lane in the reachable states of `TickLanes`.
use mathlib.Core.Bool.{true≢false}
use selfhosted_runner_swarm.Prelude.{
  Empty, In, ℕ, ◌≤◌, ◌≡◌, ◌==◌, refl, sym, ap, subst, ◌∙◌, Bool, true, false, not, ◌||◌, Option,
  none, some, List, [], ◌∷◌, if◌then◌else◌, keep, any, count_if, All, arith, Bool-cases, inl, inr,
}
use selfhosted_runner_swarm.Prelude.Text.{Text, text_eq, text_eq_iff}
use selfhosted_runner_swarm.Prelude.Dict.{Dict, get, put, get-put, member, text_key}
use selfhosted_runner_swarm.Lanes.{
  Started, Lanes, is_done, is_busy, submit, complete, forget_except, Step, submitted, completed,
  forgotten, Reach, opened, stepped,
}

abbrev HeldBy : ℕ → Option Started → Type 0
HeldBy future none = Empty
HeldBy future (some entry) = entry.0 ≡ future

-- The unfinished job of a lane is the one that the bookkeeping holds for the lane.
abbrev Held : Dict Text Started → Text × ℕ → Type 0
Held running job = HeldBy job.1 (get job.0 running)

abbrev lane_count : Text → List (Text × ℕ) → ℕ
lane_count lane = count_if (λ job. text_eq job.0 lane)

abbrev pub jobs_of : Text → Lanes → ℕ
jobs_of lane l = lane_count lane l.unfinished

record Sound (l : Lanes) : Type 0 where
  held : All (Held l.running) l.unfinished
  single : (lane : Text) → jobs_of lane l ≤ 1

none-Held :
    (running : Dict Text Started) (lane : Text) (jobs : List (Text × ℕ))
    → get lane running ≡ none
    → All (Held running) jobs
    → lane_count lane jobs ≡ 0
none-Held running lane [] e h = refl
none-Held running lane ((other, future) ∷ jobs) e h = elim (Bool-cases (text_eq other lane)) [
  | inl same ↦
      let at_lane : HeldBy future (get lane running) =
        subst (λ k. HeldBy future (get k running)) ((text_eq_iff other lane).0 same) h.0 in
      elim (subst (HeldBy future) e at_lane) [ ]
  | inr differs ↦ rw differs (none-Held running lane jobs e h.1)
]

done-Held :
    (running : Dict Text Started) (lane : Text) (entry : Started) (jobs : List (Text × ℕ))
    → get lane running ≡ some entry
    → any (λ job. job.1 == entry.0) jobs ≡ false
    → All (Held running) jobs
    → lane_count lane jobs ≡ 0
done-Held running lane entry [] e done h = refl
done-Held running lane entry ((other, future) ∷ jobs) e done h =
    elim (Bool-cases (text_eq other lane)) [
      | inl same ↦
          let at_lane : HeldBy future (get lane running) =
            subst (λ k. HeldBy future (get k running)) ((text_eq_iff other lane).0 same) h.0 in
          let its_own : entry.0 ≡ future = subst (HeldBy future) e at_lane in
          absurd (true≢false (ground (arith, its_own, done)))
      | inr differs ↦ rw differs (done-Held running lane entry jobs e (ground (arith, done)) h.1)
    ]

-- A lane that is not busy has no unfinished job.
idle_lane : (lane : Text) (l : Lanes) → Sound l → is_busy lane l ≡ false → jobs_of lane l ≡ 0
unfolding is_busy is_done
idle_lane lane l s idle = by_entry (get lane l.running) refl
  where
    by_entry : (o : Option Started) → get lane l.running ≡ o → jobs_of lane l ≡ 0
    by_entry none e = none-Held l.running lane l.unfinished e s.held
    by_entry (some entry) e =
        let seen : is_busy lane l ≡ not (not (any (λ job. job.1 == entry.0) l.unfinished)) =
          rw (is_busy, e) refl in
        done-Held l.running lane entry l.unfinished e (ground (arith, seen, idle)) s.held

put-Held :
    (running : Dict Text Started) (lane : Text) (entry : Started) (jobs : List (Text × ℕ))
    → lane_count lane jobs ≡ 0
    → All (Held running) jobs
    → All (Held (put lane entry running)) jobs
put-Held running lane entry [] c h = tt
put-Held running lane entry ((other, future) ∷ jobs) c h = elim (Bool-cases (text_eq other lane)) [
  | inl same ↦ absurd (ground (arith, c, same))
  | inr differs ↦
      let apart : text_eq lane other ≡ false =
        ground (arith, text_eq_iff lane other, text_eq_iff other lane, differs) in
      (
        subst (HeldBy future) (sym (get-put lane other entry running ∙ rw apart refl)) h.0,
        put-Held running lane entry jobs (ground (arith, c, differs)) h.1,
      )
]

keep-Held :
    (running : Dict Text Started) (p : Text × ℕ → Bool) (jobs : List (Text × ℕ))
    → All (Held running) jobs
    → All (Held running) (keep p jobs)
keep-Held running p [] h = tt
keep-Held running p (job ∷ jobs) h = elim (Bool-cases (p job)) [
  | inl e ↦ rw e (h.0, keep-Held running p jobs h.1)
  | inr e ↦ rw e (keep-Held running p jobs h.1)
]

lane_count-keep :
    (lane : Text) (p : Text × ℕ → Bool) (jobs : List (Text × ℕ))
    → lane_count lane (keep p jobs) ≤ lane_count lane jobs
lane_count-keep lane p [] = omega arith
lane_count-keep lane p (job ∷ jobs) = ground (arith, lane_count-keep lane p jobs)

-- What is kept of the bookkeeping still holds a future that must not be dropped.
keep-HeldBy :
    (p : Text × Started → Bool) (lane : Text) (future : ℕ) (running : Dict Text Started)
    → ((name : Text) (entry : Started) → entry.0 ≡ future → p (name, entry) ≡ true)
    → HeldBy future (get lane running)
    → HeldBy future (get lane (keep p running))
unfolding get
keep-HeldBy p lane future [] stays h = h
keep-HeldBy p lane future ((name, entry) ∷ running) stays h =
    elim (Bool-cases (text_eq name lane)) [
      | inl same ↦
          let its_own : entry.0 ≡ future =
            subst (λ b. HeldBy future (if b then some entry else get lane running)) same h in
          rw (stays name entry its_own) (rw same its_own)
      | inr differs ↦
          let later : HeldBy future (get lane running) =
            subst (λ b. HeldBy future (if b then some entry else get lane running)) differs h in
          elim (Bool-cases (p (name, entry))) [
            | inl kept ↦ rw kept (rw differs (keep-HeldBy p lane future running stays later))
            | inr dropped ↦ rw dropped (keep-HeldBy p lane future running stays later)
          ]
    ]

any-In :
    (job : Text × ℕ) (jobs : List (Text × ℕ)) → In job jobs → any (λ j. j.1 == job.1) jobs ≡ true
any-In job [] m = elim m [ ]
any-In job (j ∷ jobs) (inl e) = ground (arith, ap (λ x. x.1) e)
any-In job (j ∷ jobs) (inr m) = ground (arith, any-In job jobs m)

forget-Held :
    (lanes : List Text) (l : Lanes) (jobs : List (Text × ℕ))
    → ((job : Text × ℕ) → In job jobs → In job l.unfinished)
    → All (Held l.running) jobs
    → All (Held (forget_except lanes l).running) jobs
unfolding forget_except is_done
forget-Held lanes l [] sub h = tt
forget-Held lanes l (job ∷ jobs) sub h = (
  keep-HeldBy (λ entry. member entry.0 lanes || not (is_done entry.1.0 l)) job.0 job.1 l.running
      (λ name entry its_own. ground (
        arith,
        subst (λ f. any (λ j. j.1 == f) l.unfinished ≡ true) (sym its_own)
            (any-In job l.unfinished (sub job (inl refl))),
      ))
      h.0,
  forget-Held lanes l jobs (λ j m. sub j (inr m)) h.1,
)

get-put-same :
    (lane : Text) (entry : Started) (running : Dict Text Started)
    → get lane (put lane entry running) ≡ some entry
get-put-same lane entry running =
    rw (get-put lane lane entry running, (text_eq_iff lane lane).1 refl) refl

Sound-submit : (lane : Text) (now : ℕ) (l : Lanes) → Sound l → Sound (submit lane now l).1
unfolding submit
Sound-submit lane now l s = elim (Bool-cases (is_busy lane l)) [
  | inl busy ↦ rw busy s
  | inr idle ↦ rw idle (record {
    held = (
      subst (HeldBy l.next_future) (sym (get-put-same lane (l.next_future, now) l.running)) refl,
      put-Held l.running lane (l.next_future, now) l.unfinished (idle_lane lane l s idle) s.held,
    );
    single = λ other. elim (Bool-cases (text_eq lane other)) [
      | inl same ↦ rw same (
          omega (
            arith,
            subst (λ k. lane_count k l.unfinished ≡ 0) ((text_eq_iff lane other).0 same)
                (idle_lane lane l s idle),
          ))
      | inr differs ↦ rw differs (s.single other)
    ];
  })
]

Sound-step : {l m : Lanes} → Step l m → Sound l → Sound m
unfolding complete forget_except
Sound-step (submitted l lane now) s = Sound-submit lane now l s
Sound-step (completed l future) s = record {
  held = keep-Held l.running (λ job. not (job.1 == future)) l.unfinished s.held;
  single = λ lane.
      omega
        (arith, lane_count-keep lane (λ job. not (job.1 == future)) l.unfinished, s.single lane);
}
Sound-step (forgotten l lanes) s = record {
  held = forget-Held lanes l l.unfinished (λ job m. m) s.held;
  single = s.single;
}

Sound-Reach : {l : Lanes} → Reach l → Sound l
Sound-Reach opened = record { held = tt; single = λ lane. omega arith }
Sound-Reach (stepped reach s) = Sound-step s (Sound-Reach reach)

-- Whatever is submitted, completed and forgotten, and in whatever order, a lane never has two jobs
-- that are not done.
pub one_job_per_lane : {l : Lanes} → Reach l → (lane : Text) → jobs_of lane l ≤ 1
one_job_per_lane reach = (Sound-Reach reach).single
