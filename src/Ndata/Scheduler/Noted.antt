-- ===== src/Ndata/Scheduler/Noted.antt =====
-- What the client of sctp_ndata.c tells its scheduler.
use sctp_tests.Prelude.{
  ℕ, ◌+◌, ◌-◌, ◌/◌, ◌≡◌, refl, String, ℤ, pos, false, some, List, [], ◌∷◌, get_elem?, ◌==◌,
}
use sctp_tests.Posix.{
  Call, Kernel, Outcome, M, GetOpt, getsockopt, sendmsg, printf, index, or_fault, ◌>>=◌,
}
use sctp_tests.Posix.Rules.{IsReported, Adds, Dies, call_rules}
use sctp_tests.Posix.Triple.{Triple-then, Keeps-bind, Keeps-pure}
use sctp_tests.Posix.Tells.{gathered, Told, Tells, Tells-for, Tells-must, Tells-must_send}
use sctp_tests.Harness.{Context, cmd_set_strreset, cmd_close_asoc, send_asoc_msg}
use sctp_tests.Ndata.Cases.{
  SnCase, sn_cases, case_at, current_case, SetupSched, setup_sched, SetupSchedvalue,
  setup_schedvalue, prio_setup_schedvalue, prio_stress_setup_schedvalue, rr_setup_schedvalue,
}
use sctp_tests.Ndata.Setup.{
  do_setup_sched, set_stream_value, do_setup_schedvalue, do_prio_setup_schedvalue,
  do_prio_stress_setup_schedvalue, do_rr_setup_schedvalue, run_setup_sched, run_setup_schedvalue,
}
use sctp_tests.Ndata.Traffic.{do_sched_tests}
use sctp_tests.Ndata.Scheduler.{Event, chosen, valued, queued, noted}

module _ (k : Kernel) (I : Context → Type 0) where
  -- A getsockopt() or a printf() adds none.
  Adds-get :
      (es : List Event) (fd : ℤ) (option : GetOpt) → Adds (Told noted k I es) (getsockopt fd option)
  Adds-get es fd option = record { at = λ s log p. p }

  Adds-print :
      (es : List Event) (format : String) (args : List ℤ)
      → Adds (Told noted k I es) (printf format args)
  Adds-print es format args = record { at = λ s log p. p }

  Dies-any : (es : List Event) (what : String) → Dies (Told noted k I es) IsReported what
  Dies-any es what = record { at = λ s log p. refl }

  ruleset quiet_rules = (call_rules, Adds-get, Adds-print, Dies-any)

  set_stream_value-Tells :
      (stream value : ℕ)
      → Tells noted k I (valued stream value ∷ []) (set_stream_value stream value)
  unfolding set_stream_value
  set_stream_value-Tells stream value es =
      Keeps-bind _ _ (search call_rules) λ s.
        Triple-then _ _ (Tells-must noted k I _ "setsockopt" es) λ _. search quiet_rules depth 8

  send_asoc_msg-Tells :
      (len stream flags value : ℕ)
      → (len == cmd_set_strreset) ≡ false
      → (len == cmd_close_asoc) ≡ false
      → Tells noted k I (queued stream ∷ []) (send_asoc_msg len stream flags value)
  unfolding send_asoc_msg
  send_asoc_msg-Tells len stream flags value e f es = Keeps-bind _ _ (search call_rules) λ s.
      rw (e, f) at (Tells-must_send noted k I (sendmsg s.fd len flags stream value) "sendmsg" es)

  pub do_sched_tests-Tells :
      Tells noted k I
        (gathered 3 1 (λ stream. gathered 3 0 (λ _. queued stream ∷ [])))
        do_sched_tests
  unfolding do_sched_tests
  do_sched_tests-Tells =
      Tells-for noted k I 3 1 (λ stream. gathered 3 0 (λ _. queued stream ∷ [])) _
        λ stream.
          Tells-for noted k I 3 0 (λ _. queued stream ∷ []) _
            λ _. send_asoc_msg-Tells 1024 stream 0 0 refl refl

-- The values that a case's setting gives to the streams.
abbrev pub values_of : SetupSchedvalue → List Event
values_of setup_schedvalue = gathered 3 1 (λ stream. valued stream (10 - stream) ∷ [])
values_of prio_setup_schedvalue =
    gathered 3 1 (λ stream. valued stream ((10 - stream) / 8 + 8) ∷ [])
values_of prio_stress_setup_schedvalue = gathered 10 0 (λ stream. valued stream (10 - stream) ∷ [])
values_of rr_setup_schedvalue = []

module _ (k : Kernel) (i : ℕ) (c : SnCase) (at_i : get_elem? sn_cases i ≡ some c) where
  abbrev pub AtCase : Context → Type 0
  AtCase s = s.case_no ≡ pos i

  pub run_setup_schedvalue-Tells :
      (f : SetupSchedvalue) → Tells noted k AtCase (values_of f) (run_setup_schedvalue f)
  unfolding run_setup_schedvalue do_setup_schedvalue do_prio_setup_schedvalue
      do_prio_stress_setup_schedvalue do_rr_setup_schedvalue
  run_setup_schedvalue-Tells setup_schedvalue =
      Tells-for noted k AtCase 3 1 (λ stream. valued stream (10 - stream) ∷ []) _
        (λ stream. set_stream_value-Tells k AtCase stream (10 - stream))
  run_setup_schedvalue-Tells prio_setup_schedvalue =
      Tells-for noted k AtCase 3 1 (λ stream. valued stream ((10 - stream) / 8 + 8) ∷ []) _
        (λ stream. set_stream_value-Tells k AtCase stream ((10 - stream) / 8 + 8))
  run_setup_schedvalue-Tells prio_stress_setup_schedvalue =
      Tells-for noted k AtCase 10 0 (λ stream. valued stream (10 - stream) ∷ []) _
        (λ stream. set_stream_value-Tells k AtCase stream (10 - stream))
  run_setup_schedvalue-Tells rr_setup_schedvalue = λ es. Keeps-pure tt

  current_case_lem :
      (s : Context) (log : List Call)
      → s.case_no ≡ pos i
      → current_case k s log ≡ Outcome.returned c s log
  unfolding current_case case_at index or_fault ◌>>=◌
  current_case_lem s log e = rw (e, at_i)

  then_case-Tells :
      (new : List Event) (f : SnCase → M Context (Unit {0}))
      → Tells noted k AtCase new (f c)
      → Tells noted k AtCase new (current_case >>= f)
  unfolding ◌>>=◌
  then_case-Tells new f h es = record {
    at = λ s log (p, q). rw (current_case_lem s log q) ((h es).at s log (p, q));
  }

  pub run_setup_sched-Tells :
      (f : SetupSched) → Tells noted k AtCase (chosen c.sched ∷ []) (run_setup_sched f)
  unfolding run_setup_sched do_setup_sched
  run_setup_sched-Tells setup_sched = then_case-Tells (chosen c.sched ∷ []) _ λ es.
      Keeps-bind _ _ (search call_rules) λ s.
        Triple-then _ _ (Tells-must noted k AtCase _ "setsockopt" es) λ _.
          search (call_rules, Adds-get k AtCase, Adds-print k AtCase, Dies-any k AtCase) depth 8
