-- ===== src/Prsctp/Firewall/Steps.antt =====
-- What the parts of a test of sctp_pr.c do to the rules of iptables, its two threads included.
use sctp_tests.Prelude.{
  ℕ, ◌≡◌, String, pos, some, Bool, true, false, List, [], ◌∷◌, get_elem?, All, ◌==◌,
}
use sctp_tests.Posix.{
  Call, Kernel, M, Outcome, flush, drop_output_data, emit, system, index, or_fault, ◌>>=◌,
}
use sctp_tests.Posix.Rules.{Adds, Dies, call_rules}
use sctp_tests.Posix.Triple.{Keeps, Triple, Triple-then, Keeps-bind, Keeps-pure}
use sctp_tests.Posix.Dropping.{AnyExit, While, rule_While}
use sctp_tests.Harness.{Context, send_asoc_msg}
use sctp_tests.Harness.Dropping.{Stable-While}
use sctp_tests.Harness.Stable.{Stable, IsHarmless, send_asoc_msg-Keeps}
use sctp_tests.Prsctp.Cases.{PrCase, sn_cases, case_at, current_case}
use sctp_tests.Posix.{sequence, interleave, with_thread, pthread_create, pthread_join}
use sctp_tests.Posix.Started.{Starts, with_thread-Triple}
use sctp_tests.Prsctp.Traffic.{
  close_asoc_streams, reopen_asoc_streams, if_dropped, reopen_steps, cleanup_steps,
}

-- What a list of changes makes of it.
abbrev after : List (Bool → Bool) → Bool → Bool
after [] b = b
after (f ∷ fs) b = after fs (f b)

module _ (k : Kernel) (i : ℕ) where
  abbrev pub AtCase : Bool → Context → List Call → Type 0
  AtCase b = While k (λ s. s.case_no ≡ pos i) (λ _. Unit) b

  pub Stable-AtCase : (b : Bool) → Stable (AtCase b) AnyExit
  Stable-AtCase b = Stable-While k (λ n. n ≡ pos i) (λ _. Unit) b

  module _ (b : Bool) where
    pub harmless_AtCase : (c : Call) → IsHarmless c → Adds (AtCase b) c
    harmless_AtCase = (Stable-AtCase b).adds

    pub perror_AtCase : (what : String) → Dies (AtCase b) AnyExit what
    perror_AtCase = (Stable-AtCase b).dies

    pub send_AtCase :
        (len sid flags value : ℕ)
        → Keeps k (AtCase b) AnyExit (λ _. Unit) (send_asoc_msg len sid flags value)
    send_AtCase = send_asoc_msg-Keeps (AtCase b) AnyExit (λ _. Unit) k (Stable-AtCase b)

  -- `f` tells whether packets are dropped after an action, from whether they were before.
  abbrev pub Acts : (Bool → Bool) → M Context (Unit {0}) → Type 0
  Acts f m = (b : Bool) → Triple k (AtCase b) (λ _. AtCase (f b)) AnyExit (λ _. Unit) m

  abbrev AllAct : List (Bool → Bool) → List (M Context (Unit {0})) → Type 0
  AllAct [] [] = Unit
  AllAct (f ∷ fs) (m ∷ ms) = Acts f m × AllAct fs ms
  AllAct _ _ = ⊥

  sequence-Acts :
      (fs : List (Bool → Bool)) (ms : List (M Context (Unit {0})))
      → AllAct fs ms
      → Acts (after fs) (sequence ms)
  unfolding sequence
  sequence-Acts [] [] h b = Keeps-pure tt
  sequence-Acts [] (m ∷ ms) h b = elim h [ ]
  sequence-Acts (f ∷ fs) [] h b = elim h [ ]
  sequence-Acts (f ∷ fs) (m ∷ ms) h b = Triple-then m _ (h.0 b) (λ _. sequence-Acts fs ms h.1 (f b))

  sequence_kept :
      (ms : List (M Context (Unit {0}))) → All (Acts (λ b. b)) ms → Acts (λ b. b) (sequence ms)
  unfolding sequence
  sequence_kept [] h b = Keeps-pure tt
  sequence_kept (m ∷ ms) h b = Keeps-bind m _ (h.0 b) (λ _. sequence_kept ms h.1 b)

  -- The first thread does not touch the rules, so the order of the threads' steps does not matter.
  interleave-Acts :
      (schedule : List Bool) (ms : List (M Context (Unit {0}))) (fs : List (Bool → Bool))
      (ns : List (M Context (Unit {0})))
      → All (Acts (λ b. b)) ms
      → AllAct fs ns
      → Acts (after fs) (interleave schedule ms ns)
  unfolding interleave
  interleave-Acts [] ms fs ns hm hn b =
      Keeps-bind (sequence ms) _ (sequence_kept ms hm b) (λ _. sequence-Acts fs ns hn b)
  interleave-Acts (true ∷ bs) ms fs [] hm hn b = interleave-Acts bs ms fs [] hm hn b
  interleave-Acts (true ∷ bs) ms [] (n ∷ ns) hm hn b = elim hn [ ]
  interleave-Acts (true ∷ bs) ms (f ∷ fs) (n ∷ ns) hm hn b =
      Triple-then n _ (hn.0 b) (λ _. interleave-Acts bs ms fs ns hm hn.1 (f b))
  interleave-Acts (false ∷ bs) [] fs ns hm hn b = interleave-Acts bs [] fs ns hm hn b
  interleave-Acts (false ∷ bs) (m ∷ ms) fs ns hm hn b =
      Keeps-bind m _ (hm.0 b) (λ _. interleave-Acts bs ms fs ns hm.1 hn b)

  module _ (c : PrCase) (at_i : get_elem? sn_cases i ≡ some c) where
    current_case_lem :
        (s : Context) (log : List Call)
        → s.case_no ≡ pos i
        → current_case k s log ≡ Outcome.returned c s log
    unfolding current_case case_at index or_fault ◌>>=◌
    current_case_lem s log e = rw (e, at_i)

    pub then_case :
        {A : Type 0} (Q : A → Context → List Call → Type 0) (b : Bool) (f : PrCase → M Context A)
        → Triple k (AtCase b) Q AnyExit (λ _. Unit) (f c)
        → Triple k (AtCase b) Q AnyExit (λ _. Unit) (current_case >>= f)
    unfolding ◌>>=◌
    then_case Q b f h = record {
      at = λ s log (p, q). rw (current_case_lem s log q) (h.at s log (p, q));
    }

    module _ (corked : (c.drop == 0) ≡ false) where
      if_dropped-Acts :
          (f : Bool → Bool) (m : M Context (Unit {0})) → Acts f m → Acts f (if_dropped m)
      unfolding if_dropped
      if_dropped-Acts f m h b = then_case _ b _ (rw corked (h b))

      pub close_asoc_streams-Acts : Acts (λ _. true) close_asoc_streams
      unfolding close_asoc_streams
      close_asoc_streams-Acts b = then_case _ b _ (
          rw corked (
            Triple-then _ _ (rule_While k (λ s. s.case_no ≡ pos i) (λ _. Unit) b drop_output_data)
              (λ _. search (call_rules, harmless_AtCase, tt))))

      kept : (c : Call) → IsHarmless c → Acts (λ b. b) (emit c)
      kept c h b = search (call_rules, harmless_AtCase, h)

      flushes : Acts (λ _. false) (emit (system flush))
      flushes b = rule_While k (λ s. s.case_no ≡ pos i) (λ _. Unit) b flush

      pub reopen_asoc_streams-Acts : Acts (λ _. false) reopen_asoc_streams
      unfolding reopen_asoc_streams reopen_steps
      reopen_asoc_streams-Acts = if_dropped-Acts _ _ (
          sequence-Acts ((λ _. false) ∷ (λ b. b) ∷ (λ b. b) ∷ []) _
            (flushes, (kept _ tt, (kept _ tt, tt))))

      pub threads-Acts :
          Starts k
          → (schedule : List Bool) (m n : M Context (Unit {0})) → Acts (λ b. b) m
          → Acts (λ b. b) n
          → Acts (λ _. false) (with_thread schedule (m ∷ n ∷ []) cleanup_steps)
      unfolding cleanup_steps
      threads-Acts starts schedule m n hm hn b =
          with_thread-Triple schedule _ _ starts (harmless_AtCase b pthread_create tt)
            (interleave-Acts schedule _ ((λ b. b) ∷ (λ _. false) ∷ (λ b. b) ∷ (λ b. b) ∷ []) _
              (hm, (hn, tt))
              (
                kept _ tt,
                (
                  if_dropped-Acts _ _ flushes,
                  (if_dropped-Acts _ _ (kept _ tt), (if_dropped-Acts _ _ (kept _ tt), tt)),
                ),
              )
              b)
            (harmless_AtCase false pthread_join tt)
