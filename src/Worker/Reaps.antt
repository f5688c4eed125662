-- ===== src/Worker/Reaps.antt =====
-- The reap of a worker's cache from end to end: internal/host/ssh.go asks, internal/cli/internal.go runs
-- and prints, internal/host/ssh.go reads. The words of the command reach the worker as they are.
use vci.Base.{
  ℕ, ◌≤◌, ◌≡◌, refl, true, false, not, Option, some, List, [], ◌∷◌, ◌++◌, arith, ◌==◌, le→leb, all,
  pos, Result, ok, err, ◌>>◌, Text, codes, text_eq,
}
use vci.Host.Cache.{
  Reaped, decimal_value, is_decimal, max_int, parse_reap_output, reap_bundle_cache,
}
use vci.Host.Client.{Reply, Runner, must_succeed}
use vci.Host.Paths.{HostError, cache_project_dir, remote_exit, validate_host}
use vci.Host.Reports.{IsDecimal, parse_reap_output_lem}
use vci.Worker.Archive.{Archive}
use vci.Worker.Cache.{ReapRequest, internal_reap_cache}
use vci.Worker.Commands.{Caches, Ran, dir_at, exit_status, report, reported, run_internal, run_reap}
use vci.Worker.Decimal.{checked_value, parse_count, show_decimal}
use vci.Worker.Numbers.{show_decimal-IsDecimal}
use vci.Worker.Paths.{WorkerError, resolve_worker_cache_project_dir}

decimal_first :
    (c : ℕ) (cs : Text)
    → all is_decimal (c ∷ cs) ≡ true
    → ((c == b'-') ≡ false) × ((c == b'+') ≡ false)
unfolding is_decimal
decimal_first c cs h = (ground arith, ground arith)

checked_value_lem :
    (ds : Text) (n : ℕ)
    → IsDecimal ds n
    → n ≤ max_int
    → checked_value false ds (decimal_value 0 ds) ≡ some n
checked_value_lem ds n d h = rw (d.0, d.1, d.2, le→leb n max_int h) refl

parse_count-IsDecimal : (ds : Text) (n : ℕ) → IsDecimal ds n → n ≤ max_int → parse_count ds ≡ some n
unfolding parse_count
parse_count-IsDecimal [] n d h = cc d.0
parse_count-IsDecimal (c ∷ cs) n d h =
    let (minus, plus) = decimal_first c cs d.1 in
    rw (minus, plus) (checked_value_lem (c ∷ cs) n d h)

-- A count below the limit of an int is read as it was written.
pub parse_count-show_decimal : (n : ℕ) → n ≤ max_int → parse_count (show_decimal n) ≡ some n
parse_count-show_decimal n h = parse_count-IsDecimal (show_decimal n) n (show_decimal-IsDecimal n) h

abbrev reply_of : ℕ × Text → Reply
reply_of (code, out) = record {
  exit_code = pos code;
  run_failed = not (code == 0);
  context_done = false;
  stdout = out;
}

abbrev Body : Type 0
Body = List Text → Option Archive → Caches → Ran

abbrev run_words :
    (Text → Option ℕ) → Option Text → Body → Option Archive → ℕ → Caches → List Text → Reply
run_words parse_time home body stdin now caches (host ∷ vci ∷ name ∷ args) =
    reply_of (exit_status (run_internal parse_time home body name args stdin now caches))
run_words parse_time home body stdin now caches _ = reply_of (255, [])

-- The runner of a coordinator whose every host is this worker.
abbrev pub worker_at : (Text → Option ℕ) → Option Text → Body → Option Archive → ℕ → Caches → Runner
worker_at parse_time home body stdin now caches c =
    run_words parse_time home body stdin now caches c.args

-- What the coordinator makes of the worker's answer.
abbrev pub coordinator_view : Result WorkerError (ℕ × ℕ) → Result HostError Reaped
coordinator_view (err e) = err (remote_exit (pos 1))
coordinator_view (ok (stale, evicted)) = ok (record { stale = stale; evicted = evicted })

abbrev pub InRange : Result WorkerError (ℕ × ℕ) → Type 0
InRange (err e) = Unit
InRange (ok (stale, evicted)) = (stale ≤ max_int) × (evicted ≤ max_int)

-- The request that the worker reads off the arguments.
abbrev pub request_for : Text → ℕ → ℕ → ℕ → ℕ → ReapRequest
request_for dir partial_cutoff claim_cutoff max_entries max_bytes = record {
  project_dir = dir;
  ref_dir = dir ++ codes "/.vci-reap";
  partial_ref = (dir ++ codes "/.vci-reap") ++ codes "/partial";
  claim_ref = (dir ++ codes "/.vci-reap") ++ codes "/claim";
  partial_cutoff = partial_cutoff;
  claim_cutoff = claim_cutoff;
  max_entries = max_entries;
  max_bytes = max_bytes;
}

-- What the worker prints is read back.
read_report :
    (s e : ℕ)
    → s ≤ max_int
    → e ≤ max_int
    → parse_reap_output (report s e) ≡ ok (record { stale = s; evicted = e })
unfolding report is_decimal
read_report s e h k =
    parse_reap_output_lem (show_decimal s) (show_decimal e) (10 ∷ []) s e (show_decimal-IsDecimal s)
      (show_decimal-IsDecimal e) refl h k

module _ (parse_time : Text → Option ℕ) (home : Option Text) (body : Body) (stdin : Option Archive)
    (now : ℕ) (caches : Caches) where
  -- The words that `ReapBundleCache` sends.
  abbrev reap_words : Text → Text → Text → ℕ → ℕ → List Text
  reap_words dir pc ct n b =
      dir
      ∷ (dir ++ codes "/.vci-reap")
      ∷ ((dir ++ codes "/.vci-reap") ++ codes "/partial")
      ∷ ((dir ++ codes "/.vci-reap") ++ codes "/claim")
      ∷ pc
      ∷ ct
      ∷ show_decimal n
      ∷ show_decimal b
      ∷ []

  run_reap-answer :
      (dir path pc ct : Text) (tp tc n b : ℕ)
      → resolve_worker_cache_project_dir home dir ≡ ok path
      → parse_time pc ≡ some tp
      → parse_time ct ≡ some tc
      → n ≤ max_int
      → b ≤ max_int
      → (run_reap parse_time home (reap_words dir pc ct n b) now caches).answer
        ≡ reported (internal_reap_cache home (request_for dir tp tc n b) now (dir_at caches path)).1
  unfolding run_reap
  run_reap-answer dir path pc ct tp tc n b resolved hp hc hn hb =
      rw (run_reap, hp, hc, parse_count-show_decimal n hn, parse_count-show_decimal b hb, resolved)
        refl

  finish_reap : Reply → Result HostError Reaped
  finish_reap r = must_succeed r >> parse_reap_output r.stdout

  -- The coordinator reads the printed counts, and every failure of the worker is the exit code 1.
  finish_reap-view :
      (r : Ran) (a : Result WorkerError (ℕ × ℕ))
      → r.answer ≡ reported a
      → InRange a
      → finish_reap (reply_of (exit_status r)) ≡ coordinator_view a
  unfolding finish_reap exit_status must_succeed
  finish_reap-view r (err e) h i = rw (h) refl
  finish_reap-view r (ok (s, e)) h i = rw (h) (read_report s e i.0 i.1)

  -- Asked for a reap with limits in the range of an int and cutoffs that the worker can read, the
  -- coordinator reports exactly the counts of the worker's pass over the directory of the project, and
  -- the exit code 1 where that pass fails; the host and the project pass the coordinator's checks, the
  -- worker resolves the directory, and the counts are in the range of an int.
  pub reap_bundle_cache-worker :
      (host root project dir path pc ct : Text) (tp tc n b : ℕ)
      → validate_host host ≡ ok tt
      → cache_project_dir root project ≡ ok dir
      → resolve_worker_cache_project_dir home dir ≡ ok path
      → parse_time pc ≡ some tp
      → parse_time ct ≡ some tc
      → n ≤ max_int
      → b ≤ max_int
      → InRange (internal_reap_cache home (request_for dir tp tc n b) now (dir_at caches path)).1
      → reap_bundle_cache
          (some (worker_at parse_time home body stdin now caches))
          host
          root
          project
          pc
          ct
          (show_decimal n)
          (show_decimal b)
        ≡ coordinator_view
            (internal_reap_cache home (request_for dir tp tc n b) now (dir_at caches path)).1
  unfolding reap_bundle_cache run_internal text_eq finish_reap
  reap_bundle_cache-worker host root project dir path pc ct tp tc n b hh hd resolved hp hc hn hb
        range =
      rw (hh, hd)
        (finish_reap-view _
          (internal_reap_cache home (request_for dir tp tc n b) now (dir_at caches path)).1
          (run_reap-answer dir path pc ct tp tc n b resolved hp hc hn hb) range)
