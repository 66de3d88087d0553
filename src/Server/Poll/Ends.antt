-- ===== src/Server/Poll/Ends.antt =====
-- A job that its client no longer knows does not stay tracked for ever.
use download_gateway.Prelude.{
  ℕ, ◌+◌, ◌≤◌, ◌<◌, Bool, true, false, ◌||◌, Str, ◌==◌, ==_refl, Option, none, some, List, [], ◌∷◌,
  ◌++◌, ◌≡◌, ◌⊎◌, refl, ◌∙◌, All, Bool-cases, Option-cases, inl, inr, arith,
}
use download_gateway.Prelude.Assoc
use download_gateway.Adapters.Job.{Status, JobView, not_found_state}
use download_gateway.Adapters.Client.{Adapter}
use download_gateway.Adapters.Registry
use download_gateway.Adapters.Registry.{Registry}
use download_gateway.Server.Event.{Float64, Event, started, progress, completed, failed}
use download_gateway.Server.Jobs.{Tracked, Jobs, lost_after}
use download_gateway.Server.Poll.{Readings, completed_event, failed_event, poll_one}
use download_gateway.Server.Poll.Laws.{key_of, poll_one-NoNew}
use download_gateway.Server.Poll.Effect.{
  is_lost, missing_now, seen, filled, poll_event, poll_left, poll_one-effect,
}

-- One poll of a job: the registry, what the clients answer, and the clock.
pub record Poll : Type 0 where
  pub reg : Registry
  pub describe : Adapter → Str → Option JobView
  pub now : Readings

-- The job's client is registered, and answers that it does not know the job.
pub record Forgets (job : Tracked) (p : Poll) : Type 0 where
  pub ad : Adapter
  pub view : JobView
  pub registered : Registry.get job.adapter p.reg ≡ some ad
  pub answered : p.describe ad job.client_job_id ≡ some view
  pub unknown : (view.native_state == not_found_state) ≡ true

-- The window of a job has not started, or no later than at a time.
abbrev pub StartsBy : ℕ → Option ℕ → Type 0
StartsBy t none = Unit
StartsBy t (some since) = since ≤ t

-- When the window of a job has started after a poll at a time.
abbrev started_at : ℕ → Option ℕ → ℕ
started_at t none = t
started_at t (some since) = since

module _ (fl : Float64) where
  open fl use {F}

  -- An event that tells of the end of a job.
  abbrev pub has_end : List (Event F) → Bool
  has_end [] = false
  has_end (started e ∷ es) = has_end es
  has_end (progress e ∷ es) = has_end es
  has_end (completed e ∷ es) = true
  has_end (failed e ∷ es) = true

  -- The polls of one job, one after the other.
  unfoldable pub poll_again : Tracked → List Poll → Jobs → List (Event F) × Jobs
  poll_again job [] jobs = ([], jobs)
  poll_again job (p ∷ ps) jobs =
      let (events, polled) = poll_one fl p.reg p.describe p.now job jobs in
      let (more, last) = poll_again job ps polled in (events ++ more, last)

  has_end-++ : (es more : List (Event F)) → has_end (es ++ more) ≡ (has_end es || has_end more)
  has_end-++ [] more = refl
  has_end-++ (started e ∷ es) more = has_end-++ es more
  has_end-++ (progress e ∷ es) more = has_end-++ es more
  has_end-++ (completed e ∷ es) more = refl
  has_end-++ (failed e ∷ es) more = refl

  module _ (job : Tracked) where
    -- The job has ended, and it was told.
    abbrev pub IsOver : List (Event F) × Jobs → Type 0
    IsOver r = (Assoc.lookup (key_of job) r.1 ≡ none) × (has_end r.0 ≡ true)

    -- The job is tracked, and its window has started at a time.
    abbrev Waits : ℕ → Jobs → Type 0
    Waits since jobs =
        (cur : Tracked) × (Assoc.lookup (key_of job) jobs ≡ some cur)
        × (cur.missing_since ≡ some since)

    module _ (now : Readings) (v : JobView) (jobs : Jobs) (cur : Tracked)
        (here : Assoc.lookup (key_of job) jobs ≡ some cur) where
      -- The poll of a tracked job ends it, or leaves it as it was seen.
      state_cases :
          (s : Status)
          → ((poll_left fl now job v jobs cur here s ≡ none)
              × (has_end (poll_event fl now job v jobs cur here s ∷ []) ≡ true))
            ⊎ ((is_lost now.at_missing v cur ≡ false)
                × (poll_left fl now job v jobs cur here s
                    ≡ some (seen now v (filled fl now job v jobs cur here) cur)))
      unfolding failed_event completed_event
      state_cases Status.completed = inl (refl, refl)
      state_cases Status.failed = inl (refl, refl)
      state_cases Status.queued = elim (Bool-cases (is_lost now.at_missing v cur)) [
        | inl lost ↦ rw lost (inl (refl, refl))
        | inr early ↦ rw early (inr (refl, refl))
      ]
      state_cases Status.downloading = elim (Bool-cases (is_lost now.at_missing v cur)) [
        | inl lost ↦ rw lost (inl (refl, refl))
        | inr early ↦ rw early (inr (refl, refl))
      ]

    window-unknown :
        (t : ℕ) (v : JobView) (cur : Tracked)
        → (v.native_state == not_found_state) ≡ true
        → missing_now t v cur ≡ some (started_at t cur.missing_since)
    window-unknown t v cur h = elim (Option-cases cur.missing_since) [
      | inl first ↦ rw (h, first) refl
      | inr (since, again) ↦ rw (h, again) refl
    ]

    within :
        (t since : ℕ) (v : JobView) (cur : Tracked)
        → (v.native_state == not_found_state) ≡ true
        → is_lost t v cur ≡ false
        → cur.missing_since ≡ some since
        → t ≤ since + lost_after
    within t since v cur h early again = ground (arith, rw (h, again) at early)

    -- One poll that finds the job forgotten.
    poll_forgotten :
        (p : Poll) (jobs : Jobs) (cur : Tracked)
        → Forgets job p
        → Assoc.lookup (key_of job) jobs ≡ some cur
        → IsOver (poll_one fl p.reg p.describe p.now job jobs)
          ⊎ (Waits
                (started_at p.now.at_missing cur.missing_since)
                (poll_one fl p.reg p.describe p.now job jobs).1
              × ((since : ℕ)
                  → cur.missing_since ≡ some since
                  → p.now.at_missing ≤ since + lost_after))
    poll_forgotten p jobs cur f here =
        let effect =
          poll_one-effect fl p.now job f.view jobs cur here p.reg p.describe f.ad f.registered
            f.answered in
        let kept = effect.leaves (key_of job) ∙ rw (==_refl (key_of job)) refl in
        elim (state_cases p.now f.view jobs cur here f.view.state) [
          | inl (gone, told) ↦ inl (kept ∙ gone, rw effect.emits told)
          | inr (early, left) ↦ inr (
            (_, kept ∙ left, window-unknown p.now.at_missing f.view cur f.unknown),
            λ since again. within p.now.at_missing since f.view cur f.unknown early again,
          )
        ]

    over-stays :
        (ps : List Poll) (jobs : Jobs)
        → Assoc.lookup (key_of job) jobs ≡ none
        → Assoc.lookup (key_of job) (poll_again job ps jobs).1 ≡ none
    unfolding poll_again
    over-stays [] jobs h = h
    over-stays (p ∷ ps) jobs h =
        over-stays ps (poll_one fl p.reg p.describe p.now job jobs).1
          (poll_one-NoNew fl p.reg p.describe p.now job jobs (key_of job) h)

    then-IsOver :
        (p : Poll) (ps : List Poll) (jobs : Jobs)
        → IsOver (poll_one fl p.reg p.describe p.now job jobs)
        → IsOver (poll_again job (p ∷ ps) jobs)
    unfolding poll_again
    then-IsOver p ps jobs (gone, told) = (
      over-stays ps (poll_one fl p.reg p.describe p.now job jobs).1 gone,
      has_end-++ (poll_one fl p.reg p.describe p.now job jobs).0 _ ∙ rw told refl,
    )

    later-IsOver :
        (p : Poll) (ps : List Poll) (jobs : Jobs)
        → IsOver (poll_again job ps (poll_one fl p.reg p.describe p.now job jobs).1)
        → IsOver (poll_again job (p ∷ ps) jobs)
    unfolding poll_again
    later-IsOver p ps jobs (gone, told) = (
      gone,
      has_end-++ (poll_one fl p.reg p.describe p.now job jobs).0 _ ∙ rw told (ground arith),
    )

    -- From a window that has started, over polls of which the last comes after it.
    waited-ends :
        (since : ℕ) (ps : List Poll) (last : Poll) (jobs : Jobs)
        → Waits since jobs
        → All (Forgets job) ps
        → Forgets job last
        → since + lost_after < last.now.at_missing
        → IsOver (poll_again job (ps ++ last ∷ []) jobs)
    waited-ends since [] last jobs (cur, here, window) fs f late =
        elim (poll_forgotten last jobs cur f here) [
          | inl over ↦ then-IsOver last [] jobs over
          | inr (waits, early) ↦ absurd (ground (arith, early since window))
        ]
    waited-ends since (p ∷ ps) last jobs (cur, here, window) fs f late =
        elim (poll_forgotten p jobs cur fs.0 here) [
          | inl over ↦ then-IsOver p (ps ++ last ∷ []) jobs over
          | inr (waits, early) ↦
              later-IsOver p (ps ++ last ∷ []) jobs
                (waited-ends since ps last _ (rw window at waits) fs.1 f late)
        ]

    -- A tracked job, whose window has started at the first of some polls or before, if at all, is
    -- over after them if its client answers each that it does not know the job, and the last comes
    -- more than the grace window after the first: the job is no longer tracked, and a completed or
    -- a failed event was emitted.
    pub poll_again-ends :
        (first last : Poll) (ps : List Poll) (jobs : Jobs) (cur : Tracked)
        → Assoc.lookup (key_of job) jobs ≡ some cur
        → StartsBy first.now.at_missing cur.missing_since
        → Forgets job first
        → All (Forgets job) ps
        → Forgets job last
        → first.now.at_missing + lost_after < last.now.at_missing
        → IsOver (poll_again job (first ∷ ps ++ last ∷ []) jobs)
    poll_again-ends first last ps jobs cur here by f fs l late =
        elim (poll_forgotten first jobs cur f here) [
          | inl over ↦ then-IsOver first (ps ++ last ∷ []) jobs over
          | inr (waits, early) ↦ later-IsOver first (ps ++ last ∷ []) jobs (
              waited-ends _ ps last _ waits fs l
                (starts_early first.now.at_missing last.now.at_missing cur.missing_since by late))
        ]
      where
        starts_early :
            (t u : ℕ) (m : Option ℕ)
            → StartsBy t m
            → t + lost_after < u
            → started_at t m + lost_after < u
        starts_early t u none by late = late
        starts_early t u (some since) by late = omega arith
