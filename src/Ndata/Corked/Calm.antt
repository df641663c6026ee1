-- ===== src/Ndata/Corked/Calm.antt =====
-- The functions of the client of sctp_ndata.c that send no data and touch no rule of iptables, and what holds
-- before and after them.
use sctp_tests.Prelude.{
  ℕ, ◌≡◌, refl, String, ℤ, pos, Bool, true, false, ◌||◌, some, List, [], ◌∷◌, get_elem?,
}
use sctp_tests.Posix.{Call, Kernel, Received, failed, got, M, sendmsg, system, modify}
use sctp_tests.Posix.Rules.{Adds, Dies, call_rules}
use sctp_tests.Posix.Triple.{Keeps}
use sctp_tests.Posix.Dropping.{dropping}
use sctp_tests.Harness.{
  Context, cmd_set_strreset, cmd_close_asoc, get_asoc_id, do_setup_frag_interleave,
  do_setup_strm_interleave, create_asoc_sk, enable_asoc_strreset, enable_peer_strreset,
  close_asoc_sk, send_asoc_cmd, reply_read,
}
use sctp_tests.Harness.Stable.{Stable, IsHarmless}
use sctp_tests.Ndata.Cases.{
  SetupSched, setup_sched, SetupSchedvalue, setup_schedvalue, SnCase, sn_cases, current_case,
}
use sctp_tests.Ndata.Setup.{
  run_setup_sched, run_setup_schedvalue, do_setup_sched, set_stream_value, do_setup_schedvalue,
  do_prio_setup_schedvalue, do_prio_stress_setup_schedvalue, do_rr_setup_schedvalue,
}
use sctp_tests.Ndata.Verdict.Check.{current_case_lem}
use sctp_tests.Ndata.Throughput.{is_command}

-- Each message but a command was sent after a rule that drops packets, and before its removal.
abbrev pub Covered : List Call → Type 0
Covered [] = Unit
Covered (sendmsg fd len flags sid value ∷ log) =
    ((is_command len || dropping log) ≡ true) × Covered log
Covered (_ ∷ log) = Covered log

or_true : (b : Bool) → (b || true) ≡ true
or_true true = refl
or_true false = refl

-- A call that touches no rule and sends no data.
abbrev pub IsCalm : Call → Type 0
IsCalm (system rule) = ⊥
IsCalm (sendmsg fd len flags sid value) = is_command len ≡ true
IsCalm _ = Unit

module _ (k : Kernel) (i : ℕ) (c : SnCase) (at_i : get_elem? sn_cases i ≡ some c) where
  abbrev pub Free : Context → List Call → Type 0
  Free s log = Covered log × (s.case_no ≡ pos i)

  abbrev pub Blocked : Context → List Call → Type 0
  Blocked s log = Covered log × (s.case_no ≡ pos i) × (dropping log ≡ true)

  abbrev Calm : {A : Type 0} → M Context A → Type 0
  Calm action = Keeps k Free (λ _. Covered) Covered action

  pub adds : (call : Call) → IsCalm call → Adds Free call
  adds (Call.system rule) h = elim h [ ]
  adds (Call.sendmsg fd len flags sid value) h = record { at = λ s log (p, q). ((rw h refl, p), q) }
  adds _ h = record { at = λ s log p. p }

  dies : (what : String) → Dies Free (λ _. Covered) what
  dies what = record { at = λ s log (p, q). p }

  pub add_silent : (call : Call) → IsHarmless call → Adds Blocked call
  add_silent (Call.system rule) h = elim h [ ]
  add_silent (Call.sendmsg fd len flags sid value) h = record {
    at = λ s log (p, q, r). ((rw r (or_true (is_command len)), p), q, r);
  }
  add_silent _ h = record { at = λ s log p. p }

  pub Blocked-Stable : Stable Blocked (λ _. Covered)
  Blocked-Stable = record {
    adds = add_silent;
    dies = λ what. record { at = λ s log (p, q, r). p };
    fd = λ fd s log p. p;
    asoc_id = λ id s log p. p;
    sri_stream = λ sid s log p. p;
  }

  store_fd : (fd : ℤ) → Calm (modify (λ s. record s { fd = fd }))
  unfolding modify
  store_fd fd = record { at = λ s log p. p }

  store_asoc_id : (id : ℕ) → Calm (modify (λ s. record s { asoc_id = id }))
  unfolding modify
  store_asoc_id id = record { at = λ s log p. p }

  get_asoc_id-Calm : Calm get_asoc_id
  unfolding get_asoc_id
  get_asoc_id-Calm = search (call_rules, adds, dies, tt) depth 8

  pub enable_asoc_strreset-Calm : (allowed : ℕ) → Calm (enable_asoc_strreset allowed)
  unfolding enable_asoc_strreset
  enable_asoc_strreset-Calm allowed =
      search (call_rules, adds, dies, tt, get_asoc_id-Calm, store_asoc_id) depth 9

  pub create_asoc_sk-Calm : (ip port : String) → Calm (create_asoc_sk ip port)
  unfolding create_asoc_sk do_setup_frag_interleave do_setup_strm_interleave
  create_asoc_sk-Calm ip port =
      search (call_rules, adds, dies, tt, get_asoc_id-Calm, store_asoc_id, store_fd) depth 14

  reply_read-Calm : (expected : ℕ) (answer : Received) → Calm (reply_read expected answer)
  unfolding reply_read
  reply_read-Calm expected failed = search (call_rules, dies)
  reply_read-Calm expected (got len sid) = search (call_rules, adds, tt)

  send_asoc_cmd-Calm :
      (len expected : ℕ) → is_command len ≡ true → Calm (send_asoc_cmd len expected)
  unfolding send_asoc_cmd
  send_asoc_cmd-Calm len expected h =
      search (call_rules, adds, dies, tt, h, reply_read-Calm) depth 9

  pub enable_peer_strreset-Calm : Calm (enable_peer_strreset cmd_set_strreset)
  unfolding enable_peer_strreset
  enable_peer_strreset-Calm = send_asoc_cmd-Calm cmd_set_strreset cmd_set_strreset refl

  close_cmd-Calm : Calm (send_asoc_cmd cmd_close_asoc cmd_close_asoc)
  close_cmd-Calm = send_asoc_cmd-Calm cmd_close_asoc cmd_close_asoc refl

  pub close_asoc_sk-Calm : Calm (close_asoc_sk cmd_close_asoc)
  unfolding close_asoc_sk
  close_asoc_sk-Calm = search (call_rules, adds, tt, close_cmd-Calm) depth 10

  pub current_case-Calm : Calm current_case
  current_case-Calm = record {
    at = λ s log (p, q). rw (current_case_lem i c at_i k s log q) (p, q);
  }

  pub run_setup_sched-Calm : (f : SetupSched) → Calm (run_setup_sched f)
  unfolding run_setup_sched do_setup_sched
  run_setup_sched-Calm setup_sched = search (call_rules, adds, dies, tt, current_case-Calm) depth 9

  set_stream_value-Calm : (stream value : ℕ) → Calm (set_stream_value stream value)
  unfolding set_stream_value
  set_stream_value-Calm stream value = search (call_rules, adds, dies, tt) depth 8

  pub run_setup_schedvalue-Calm : (f : SetupSchedvalue) → Calm (run_setup_schedvalue f)
  unfolding run_setup_schedvalue do_setup_schedvalue do_prio_setup_schedvalue
      do_prio_stress_setup_schedvalue do_rr_setup_schedvalue
  run_setup_schedvalue-Calm setup_schedvalue = search (call_rules, set_stream_value-Calm)
  run_setup_schedvalue-Calm _ = search (call_rules, set_stream_value-Calm)
