-- ===== src/Jobs/Window.antt =====
-- How long the window of a job is after the extensions of src/hil_controller/api/jobs.py.
use mathlib.Core.List.{reverse, reverse-append}
use sbc_mcu_dut_controller.Prelude.{
  ℕ, ◌+◌, ◌*◌, ◌≤◌, String, Bool, true, false, not, ◌&&◌, Option, none, some, List, [], ◌∷◌, ◌++◌,
  ◌≡◌, refl, sym, ap, ◌∙◌, arith, map, All, if◌then◌else◌, one_of, is_null, find_first, sql_eq,
}
use sbc_mcu_dut_controller.Store.{Stamp, at, Job, Lease, Db}
use sbc_mcu_dut_controller.Queue.Leases.{
  get_active_for_job, renew, update_leases, is_active, is_open, extend_to,
}
use sbc_mcu_dut_controller.Journal.{
  Event, Appended, appended, gave_up, append_event, get_job, finished_states,
}
use sbc_mcu_dut_controller.Jobs.Requests.{
  Desk, Answer, window_until, minute, later_of, written, announced, announce, after_renew,
  extend_lease, extend_job, extend_all,
}

module _ {A : Type 0} (p : A → Bool) where
  find_first-map :
      (f : A → A) (xs : List A) (x : A)
      → ((y : A) → p (f y) ≡ p y)
      → find_first p xs ≡ some x
      → find_first p (map f xs) ≡ some (f x)
  find_first-map f [] x same h = cc
  find_first-map f (y ∷ xs) x same h = rw (same y) (of (p y) (find_first-map f xs x same) h)
    where
      of :
          (b : Bool)
          → (find_first p xs ≡ some x → find_first p (map f xs) ≡ some (f x))
          → (if b then some y else find_first p xs) ≡ some x
          → (if b then some (f y) else find_first p (map f xs)) ≡ some (f x)
      of true later h =
          ap (λ (o : Option A). elim o as (λ _. Option A) [ none ↦ none | some z ↦ some (f z) ]) h
      of false later h = later h

  find_first-holds : (xs : List A) (x : A) → find_first p xs ≡ some x → p x ≡ true
  find_first-holds [] x h = cc
  find_first-holds (y ∷ xs) x h = ground (arith, find_first-holds xs x)

map-append : {A : Type 0} → (f : A → A) (xs ys : List A) → map f (xs ++ ys) ≡ map f xs ++ map f ys
map-append f [] ys = refl
map-append f (x ∷ xs) ys = ap (◌∷◌ (f x)) (map-append f xs ys)

reverse-map : {A : Type 0} → (f : A → A) (xs : List A) → reverse (map f xs) ≡ map f (reverse xs)
reverse-map f [] = refl
reverse-map f (x ∷ xs) =
    reverse-append (f x ∷ []) (map f xs)
    ∙ ap (λ l. l ++ f x ∷ []) (reverse-map f xs)
    ∙ sym (map-append f (reverse xs) (x ∷ []))
    ∙ ap (map f) (sym (reverse-append (x ∷ []) xs))

-- The minutes of all the extensions
abbrev pub granted : List (ℕ × ℕ) → ℕ
granted [] = 0
granted ((now, minutes) ∷ rs) = minutes * minute + granted rs

module _ (job_id : String) where
  abbrev pub IsLive : Db → Type 0
  IsLive db =
      (row : Job) × (get_job job_id db ≡ some row) × (one_of row.state finished_states ≡ false)

  -- What the others do leaves the job in a live state and its lease as it is.
  pub record IsPeer (others : ℕ → Db → Db) : Type 0 where
    pub live : (n : ℕ) (db : Db) → IsLive db → IsLive (others n db)
    pub kept :
        (n : ℕ) (db : Db) (l : Lease)
        → get_active_for_job job_id db ≡ some l
        → get_active_for_job job_id (others n db) ≡ some l

  module _ (l : Lease) where
    abbrev pub with_expiry : ℕ → Lease
    with_expiry u = record l { expires_at = some (at u) }

    -- `job_id=? AND released_at IS NULL`
    abbrev mine : Lease → Bool
    mine k = sql_eq k.job_id (some job_id) && is_active k

    extended-mine :
        (v : ℕ) (k : Lease)
        → mine (if is_open l.id k then extend_to (some (at v)) k else k) ≡ mine k
    extended-mine v k = ground arith

    renewed-get_active :
        (u v : ℕ) (db : Db)
        → get_active_for_job job_id db ≡ some (with_expiry u)
        → get_active_for_job job_id (renew l.id (some (at v)) db).1 ≡ some (with_expiry v)
    unfolding get_active_for_job renew update_leases
    renewed-get_active u v db h =
        ap (find_first mine) (reverse-map _ db.leases)
        ∙ find_first-map mine _ (reverse db.leases) (with_expiry u) (extended-mine v) h
        ∙ ap (λ b. some (if b then with_expiry v else with_expiry u)) there
      where
        there : is_open l.id (with_expiry u) ≡ true
        there =
            let yes : mine (with_expiry u) ≡ true =
              find_first-holds mine (reverse db.leases) (with_expiry u) h in
            ground arith

    -- The job is live, and its lease expires at `u`.
    abbrev pub IsUntil : ℕ → Db → Type 0
    IsUntil u db = IsLive db × (get_active_for_job job_id db ≡ some (with_expiry u))

    module _ (others : ℕ → Db → Db) (writers : ℕ → List Event → List Event)
        (window_payload : Stamp → String) (peer : IsPeer others) where
      written-IsUntil :
          (n u : ℕ) (d : Desk)
          → IsUntil u d.db
          → IsUntil u (written others writers window_payload job_id n d).db
      written-IsUntil n u d (live, held) = (peer.live n d.db live, peer.kept n d.db _ held)

      announce-db :
          (action kind payload : String) (now : ℕ) (answer : Answer) (d : Desk)
          → (announce others writers window_payload job_id action kind payload now answer d).1.db
            ≡ d.db
      unfolding announce
      announce-db action kind payload now answer d = of (
          append_event writers (not (is_null (get_job job_id d.db))) job_id kind payload (at now)
            d.events)
        where
          of :
              (r : Appended × List Event)
              → (announced others writers window_payload job_id action kind answer r d).1.db ≡ d.db
          of (gave_up, es) = refl
          of (appended seq, es) = refl

      after_renew-IsUntil :
          (now u : ℕ) (until : Stamp) (b : Bool) (d : Desk)
          → IsUntil u d.db
          → IsUntil u (after_renew others writers window_payload job_id now until b d).1.db
      unfolding after_renew
      after_renew-IsUntil now u until false d h = h
      after_renew-IsUntil now u until true d h =
          rw
            (announce-db "job.extend" "window" (window_payload until) now (window_until until)
              (written others writers window_payload job_id 3 d))
            (written-IsUntil 3 u d h)

      renew-IsLive :
          (id : ℕ) (until : Option Stamp) (db : Db) → IsLive db → IsLive (renew id until db).1
      unfolding renew update_leases get_job
      renew-IsLive id until db h = h

      extend_lease-IsUntil :
          (now minutes u : ℕ) (d : Desk)
          → IsUntil u d.db
          → IsUntil
              (later_of now (some (at u)) + minutes * minute)
              (extend_lease others writers window_payload job_id now minutes
                (some (with_expiry u))
                d).1.db
      unfolding extend_lease
      extend_lease-IsUntil now minutes u d (live, held) =
          let v : ℕ = later_of now (some (at u)) + minutes * minute in
          let r : Bool × Db = renew l.id (some (at v)) (others 2 d.db) in
          after_renew-IsUntil now v (at v) r.0 (record d { db = r.1 })
            (
              renew-IsLive l.id (some (at v)) (others 2 d.db) (peer.live 2 d.db live),
              renewed-get_active u v (others 2 d.db) (peer.kept 2 d.db _ held),
            )

      extend_job-IsUntil :
          (now minutes u : ℕ) (d : Desk)
          → IsUntil u d.db
          → IsUntil
              (later_of now (some (at u)) + minutes * minute)
              (extend_job others writers window_payload job_id now minutes d).1.db
      unfolding extend_job
      extend_job-IsUntil now minutes u d (live, held) =
          rw (live.1, live.2, peer.kept 1 d.db (with_expiry u) held)
            (extend_lease-IsUntil now minutes u (written others writers window_payload job_id 1 d)
              (peer.live 1 d.db live, peer.kept 1 d.db _ held))

      -- Extensions add up: after any sequence of them the job's lease is the same one, and it expires no
      -- sooner than its first expiry and all the minutes together, and no sooner than each extension's own
      -- minutes after its instant, as long as others leave the job live and its lease as it is.
      pub extend_all-adds_up :
          (rs : List (ℕ × ℕ)) (u : ℕ) (d : Desk)
          → IsUntil u d.db
          → (v : ℕ) × IsUntil v (extend_all others writers window_payload job_id rs d).db
            × (u + granted rs ≤ v)
            × All (λ r. r.0 + r.1 * minute ≤ v) rs
      unfolding extend_all
      extend_all-adds_up [] u d h = (u, h, omega arith, tt)
      extend_all-adds_up ((now, minutes) ∷ rs) u d h =
          let first = extend_job-IsUntil now minutes u d h in
          let (v, held, sum, each) =
            extend_all-adds_up rs (later_of now (some (at u)) + minutes * minute)
              (written others writers window_payload job_id 0
                (extend_job others writers window_payload job_id now minutes d).1)
              (written-IsUntil 0 _ (extend_job others writers window_payload job_id now minutes d).1
                first) in
          (v, held, ground (arith, sum), (ground (arith, sum), each))
