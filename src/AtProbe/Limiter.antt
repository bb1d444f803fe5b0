-- ===== src/AtProbe/Limiter.antt =====
-- How often at_probe.py opens a device node to probe it.
use isales_telephony.Base.{
  ℕ, ◌≡◌, refl, ap, sym, ◌∙◌, Bool, true, some, List, [], ◌∷◌, ◌++◌, ◌+◌, ◌≤◌, ◌==◌, ==_iff, arith,
  subst, All-snoc, All-imply, Bool-cases, inl, inr, Text, dict_get, dict_get-set, All, leb,
}
use isales_telephony.AtProbe.{Prober, elapsed, allow, stamp}
use isales_telephony.AtProbe.Channel.{
  Attempt, Session, in_whitelist, identify_modem_channel, identify_all, stamped, new,
}

-- A later probe, against one before it.
abbrev pub Apart : ℕ → ℕ × ℕ → ℕ × ℕ → Type 0
Apart interval (node, t) (later, u) = node ≡ later → t + interval ≤ u

-- Of any two probes of one device node, the later one comes an interval or more after the other.
abbrev pub AllApart : ℕ → List (ℕ × ℕ) → Type 0
AllApart interval [] = Unit
AllApart interval (p ∷ probes) = All (Apart interval p) probes × AllApart interval probes

-- The times of the attempts do not go back.
abbrev pub IsMonotone : ℕ → List Attempt → Type 0
IsMonotone from [] = Unit
IsMonotone from (a ∷ attempts) = (from ≤ a.now) × IsMonotone a.now attempts

-- The prober remembers a probe that is not older than this one, and not later than now.
abbrev Remembered : Prober → ℕ → ℕ × ℕ → Type 0
Remembered prober now (node, t) =
    (last : ℕ) × (dict_get node prober.last_probed ≡ some last) × (t ≤ last) × (last ≤ now)

pub record IsLimited (now : ℕ) (s : Session) : Type 0 where
  pub remembered : All (Remembered s.prober now) s.probes
  pub apart : AllApart s.prober.interval s.probes

AllApart-snoc :
    (interval : ℕ) (p : ℕ × ℕ) (probes : List (ℕ × ℕ))
    → AllApart interval probes
    → All (λ q. Apart interval q p) probes
    → AllApart interval (probes ++ p ∷ [])
AllApart-snoc interval p [] h k = (tt, tt)
AllApart-snoc interval p (q ∷ probes) (h, hs) (k, ks) =
    (All-snoc (Apart interval q) probes p h k, AllApart-snoc interval p probes hs ks)

-- what is remembered of a probe, when `a` is probed
Remembered-stamp :
    (prober : Prober) (node now a : ℕ) (p : ℕ × ℕ)
    → now ≤ a
    → Remembered prober now p
    → Remembered (stamp a node prober) a p
unfolding stamp
Remembered-stamp prober node now a (n, t) h (last, is_last, t_last, last_now) =
    elim (Bool-cases (node == n)) [
      | inl o ↦ (a, dict_get-set n node a prober.last_probed ∙ rw o refl, omega arith, omega arith)
      | inr o ↦ (
        last,
        dict_get-set n node a prober.last_probed ∙ rw (o, is_last) refl,
        omega arith,
        omega arith,
      )
    ]

-- a probe that is allowed is apart from those before it
allow-Apart :
    (prober : Prober) (node now a : ℕ) (p : ℕ × ℕ)
    → allow a node prober ≡ true
    → Remembered prober now p
    → Apart prober.interval p (node, a)
unfolding allow
allow-Apart prober node now a (n, t) allowed (last, is_last, t_last, last_now) same =
    let elapsed_last : leb (last + prober.interval) a ≡ true =
      sym (
        ap (elapsed prober.interval a)
          (ap (λ k. dict_get k prober.last_probed) (sym same) ∙ is_last))
      ∙ allowed in
    ground arith

Remembered-later :
    (prober : Prober) (now a : ℕ) (p : ℕ × ℕ)
    → now ≤ a
    → Remembered prober now p
    → Remembered prober a p
Remembered-later prober now a (n, t) h (last, is_last, t_last, last_now) =
    (last, is_last, t_last, omega arith)

later-IsLimited : (now a : ℕ) (s : Session) → now ≤ a → IsLimited now s → IsLimited a s
later-IsLimited now a s h l = record {
  remembered =
      All-imply (Remembered s.prober now) (Remembered s.prober a) s.probes
        (λ p. Remembered-later s.prober now a p h) l.remembered;
  apart = l.apart;
}

stamped-IsLimited :
    (now : ℕ) (a : Attempt) (s : Session)
    → now ≤ a.now
    → allow a.now a.device_node s.prober ≡ true
    → IsLimited now s
    → IsLimited a.now (stamped a s)
unfolding stamp
stamped-IsLimited now a s h allowed l =
    let prober : Prober = stamp a.now a.device_node s.prober in
    record {
      remembered =
          All-snoc (Remembered prober a.now) s.probes (a.device_node, a.now)
            (All-imply (Remembered s.prober now) (Remembered prober a.now) s.probes
              (λ p. Remembered-stamp s.prober a.device_node now a.now p h) l.remembered)
            (
              a.now,
              dict_get-set a.device_node a.device_node a.now s.prober.last_probed
                  ∙ rw ((==_iff a.device_node a.device_node).1 refl) refl,
              omega arith,
              omega arith,
            );
      apart =
          AllApart-snoc s.prober.interval (a.device_node, a.now) s.probes l.apart
            (All-imply (Remembered s.prober now)
              (λ q. Apart s.prober.interval q (a.device_node, a.now)) s.probes
              (λ p. allow-Apart s.prober a.device_node now a.now p allowed) l.remembered);
    }

identify_modem_channel-IsLimited :
    (whitelist : Text → Text → Bool) (now : ℕ) (a : Attempt) (s : Session)
    → now ≤ a.now
    → IsLimited now s
    → IsLimited a.now (identify_modem_channel whitelist a s).1
unfolding identify_modem_channel
identify_modem_channel-IsLimited whitelist now a s h l =
    elim (Bool-cases (in_whitelist whitelist a.vendor_id a.product_id)) [
      | inl w ↦ rw w (later-IsLimited now a.now s h l)
      | inr w ↦ rw w (elim (Bool-cases (allow a.now a.device_node s.prober)) [
        | inl o ↦ rw o (stamped-IsLimited now a s h o l)
        | inr o ↦ rw o (later-IsLimited now a.now s h l)
      ])
    ]

interval_kept :
    (whitelist : Text → Text → Bool) (a : Attempt) (s : Session)
    → (identify_modem_channel whitelist a s).1.prober.interval ≡ s.prober.interval
unfolding identify_modem_channel stamp
interval_kept whitelist a s = elim (Bool-cases (in_whitelist whitelist a.vendor_id a.product_id)) [
  | inl w ↦ rw w refl
  | inr w ↦ rw w (elim (Bool-cases (allow a.now a.device_node s.prober)) [
    | inl o ↦ rw o refl
    | inr o ↦ rw o refl
  ])
]

identify_all-IsLimited :
    (whitelist : Text → Text → Bool) (now : ℕ) (attempts : List Attempt) (s : Session)
    → IsMonotone now attempts
    → IsLimited now s
    → AllApart s.prober.interval (identify_all whitelist attempts s).probes
unfolding identify_all
identify_all-IsLimited whitelist now [] s m l = l.apart
identify_all-IsLimited whitelist now (a ∷ attempts) s (h, m) l =
    subst
      (λ i.
        AllApart i
          (identify_all whitelist attempts (identify_modem_channel whitelist a s).1).probes)
      (interval_kept whitelist a s)
      (identify_all-IsLimited whitelist a.now attempts (identify_modem_channel whitelist a s).1 m
        (identify_modem_channel-IsLimited whitelist now a s h l))

-- From a new session on, in any sequence of calls on any device nodes whose times do not go back: of
-- any two probes of one node, the later one comes the interval of the prober or more after the other.
pub identify_all-AllApart :
    (whitelist : Text → Text → Bool) (interval : ℕ) (attempts : List Attempt)
    → IsMonotone 0 attempts
    → AllApart interval (identify_all whitelist attempts (new interval)).probes
unfolding new
identify_all-AllApart whitelist interval attempts m =
    identify_all-IsLimited whitelist 0 attempts (new interval) m
      (record { remembered = tt; apart = tt })
