-- ===== src/Tconnect/Asked.antt =====
-- One call of tconnect_get_connected_fd() of libxcm/tp/tcp/tconnect.c.
use xcm.Base.{
  ℕ, ◌≡◌, ◌⊎◌, inl, inr, refl, sym, ap, Bool, true, false, Option, none, some, List, [], ◌∷◌, All,
  arith, subst, Bool-cases, if◌then◌else◌,
}
use xcm.Errno.{Errno, eagain, enoent, is_eagain, Outcome, ret, fail, abort}
use xcm.Tconnect.{TrackEnv}
use xcm.Tconnect.Track.{Track}
use xcm.Tconnect.Process.{Established, track_get_connected_fd}
use xcm.Tconnect.Connect.{
  Tconnect, Progress, won, waiting, tracks_loop, same_fd, take_fd, tconnect_get_connected_fd,
}
use xcm.Tconnect.Evidence.{Leaves, same_lem, then_lem, branch_lem, Succeeded, IsHonest}
use xcm.Tconnect.Handed.{Unregistered, HandedPair, get_lem}

pub if_lem :
    {B : Type 0} (P : B → Type 0) (b : Bool) (x y : Option B)
    → Leaves P x
    → Leaves P y
    → Leaves P (if b then x else y)
if_lem P true x y h k = h
if_lem P false x y h k = k

pub left_lem : {A : Type 0} (P : A → Type 0) (o : Option A) (a : A) → o ≡ some a → Leaves P o → P a
left_lem P o a e h = subst (Leaves P) e h

module _ {W Opts Time : Type 0} (env : TrackEnv W Opts Time) (port : ℕ) where
  abbrev pub AllHonest : List (Track Opts Time) → Type 0
  AllHonest = All (IsHonest env port)

  abbrev IsWon : Progress env → W → Type 0
  IsWon (won established) after =
      Succeeded env port established.fd × Unregistered env port established.fd after
  IsWon (waiting in_progress e) after = Unit {0}

  abbrev LoopGood : Progress env × List (Track Opts Time) × W → Type 0
  LoopGood r = IsWon r.0 r.2 × AllHonest r.1

  later_lem :
      (t : Track Opts Time) (result : Option (Progress env × List (Track Opts Time) × W))
      → IsHonest env port t
      → Leaves LoopGood result
      → Leaves LoopGood
          (elim result [ none ↦ none | some (r, rest', w2) ↦ some (r, t ∷ rest', w2) ])
  later_lem t none h k = tt
  later_lem t (some (r, rest, w)) h k = (k.0, (h, k.1))

  loop_step :
      (rest : List (Track Opts Time)) (in_progress : Bool) (fatal_errno : Errno)
      (result : Option (Outcome (Established env) × Track Opts Time × W))
      → AllHonest rest
      → ((b : Bool) (e : Errno) (w : W) → Leaves LoopGood (tracks_loop env rest b e w))
      → Leaves (HandedPair env port) result
      → Leaves LoopGood (elim result [
        | none ↦ none
        | some (ret established, track', w') ↦ some (won established, track' ∷ rest, w')
        | some (abort, track', w') ↦ none
        | some (fail e, track', w') ↦ elim (is_eagain e) [
          | true ↦ elim (tracks_loop env rest true fatal_errno w') [
            | none ↦ none
            | some (r, rest', w2) ↦ some (r, track' ∷ rest', w2)
          ]
          | false ↦ elim (tracks_loop env rest in_progress e w') [
            | none ↦ none
            | some (r, rest', w2) ↦ some (r, track' ∷ rest', w2)
          ]
        ]
      ])
  loop_step rest in_progress fatal_errno none hs later h = tt
  loop_step rest in_progress fatal_errno (some (ret established, t, w)) hs later h =
      (h.0, (h.1, hs))
  loop_step rest in_progress fatal_errno (some (abort, t, w)) hs later h = tt
  loop_step rest in_progress fatal_errno (some (fail e, t, w)) hs later h =
      branch_lem LoopGood (is_eagain e) _ _
        (later_lem t (tracks_loop env rest true fatal_errno w) h.1 (later true fatal_errno w))
        (later_lem t (tracks_loop env rest in_progress e w) h.1 (later in_progress e w))

  tracks_loop_lem :
      (tracks : List (Track Opts Time)) (in_progress : Bool) (fatal_errno : Errno) (w : W)
      → AllHonest tracks
      → Leaves LoopGood (tracks_loop env tracks in_progress fatal_errno w)
  unfolding tracks_loop
  tracks_loop_lem [] in_progress fatal_errno w h = (tt, tt)
  tracks_loop_lem (t ∷ rest) in_progress fatal_errno w h =
      loop_step rest in_progress fatal_errno (track_get_connected_fd env t w) h.1
        (λ b e w'. tracks_loop_lem rest b e w' h.1) (get_lem env port t w h.0)

  -- The descriptor was one of the connection's, which has the other one left.
  abbrev pub Taken : Option ℕ → Tconnect Opts Time → Tconnect Opts Time → Type 0
  Taken fd tconnect tconnect' =
      ((fd ≡ tconnect.fd4) × (tconnect'.fd4 ≡ none) × (tconnect'.fd6 ≡ tconnect.fd6))
      ⊎ ((fd ≡ tconnect.fd6) × (tconnect'.fd6 ≡ none) × (tconnect'.fd4 ≡ tconnect.fd4))

  same_fd-eq : (a b : Option ℕ) → same_fd env a b ≡ true → a ≡ b
  same_fd-eq none none h = refl
  same_fd-eq (some a) (some b) h = ap some (ground (arith, h))
  same_fd-eq none (some b) h = absurd (cc)
  same_fd-eq (some a) none h = absurd (cc)

  take_lem :
      (established : Established env) (tconnect : Tconnect Opts Time)
      → Leaves
          (λ t. Taken established.fd tconnect t × (t.tracks ≡ tconnect.tracks))
          (take_fd env established tconnect)
  unfolding take_fd
  take_lem established tconnect =
      let goal =
        same_lem (λ t. Taken established.fd tconnect t × (t.tracks ≡ tconnect.tracks))
          (take_fd env established tconnect) in
      elim (Bool-cases (same_fd env established.fd tconnect.fd4)) [
        | inl is4 ↦
            goal (some (record tconnect { fd4 = none })) (ground (arith, is4))
              (inl (same_fd-eq established.fd tconnect.fd4 is4, refl, refl), refl)
        | inr not4 ↦ elim (Bool-cases (same_fd env established.fd tconnect.fd6)) [
          | inl is6 ↦
              goal (some (record tconnect { fd6 = none })) (ground (arith, not4, is6))
                (inr (same_fd-eq established.fd tconnect.fd6 is6, refl, refl), refl)
          | inr not6 ↦ goal none (ground (arith, not4, not6)) tt
        ]
      ]

  -- What a call returns: a descriptor that has been connected, that is registered no longer and that
  -- is taken off the connection, or an error, with both descriptors left.
  abbrev pub Answer :
      Tconnect Opts Time → Outcome (Established env) → Tconnect Opts Time → W → Type 0
  Answer tconnect (ret established) tconnect' after =
      Succeeded env port established.fd
      × Unregistered env port established.fd after
      × Taken established.fd tconnect tconnect'
  Answer tconnect (fail e) tconnect' after =
      (tconnect'.fd4 ≡ tconnect.fd4) × (tconnect'.fd6 ≡ tconnect.fd6)
  Answer tconnect abort tconnect' after = ⊥

  abbrev pub Answered :
      Tconnect Opts Time → Outcome (Established env) × Tconnect Opts Time × W → Type 0
  Answered tconnect r = Answer tconnect r.0 r.1 r.2 × AllHonest r.1.tracks

  answer_lem :
      (tconnect : Tconnect Opts Time) (result : Option (Progress env × List (Track Opts Time) × W))
      → Leaves LoopGood result
      → Leaves (Answered tconnect) (elim result [
        | none ↦ none
        | some (won established, tracks, w') ↦
            elim (take_fd env established (record tconnect { tracks = tracks })) [
              | none ↦ none
              | some tconnect' ↦ some (ret established, tconnect', w')
            ]
        | some (waiting in_progress fatal_errno, tracks, w') ↦
            let error = if in_progress then eagain else fatal_errno in
            some (fail error, record tconnect { tracks = tracks }, w')
      ])
  answer_lem tconnect none h = tt
  answer_lem tconnect (some (won established, tracks, w)) h =
      let left : Tconnect Opts Time = record tconnect { tracks = tracks } in
      then_lem (λ t. Taken established.fd left t × (t.tracks ≡ tracks)) (Answered tconnect)
        (take_fd env established left) _ (take_lem established left)
        (λ t k. ((h.0.0, h.0.1, k.0), subst AllHonest (sym k.1) h.1))
  answer_lem tconnect (some (waiting in_progress e, tracks, w)) h = ((refl, refl), h.1)

  pub get_connected_lem :
      (tconnect : Tconnect Opts Time) (w : W)
      → AllHonest tconnect.tracks
      → Leaves (Answered tconnect) (tconnect_get_connected_fd env tconnect w)
  unfolding tconnect_get_connected_fd
  get_connected_lem tconnect w h =
      answer_lem tconnect (tracks_loop env tconnect.tracks false enoent w)
        (tracks_loop_lem tconnect.tracks false enoent w h)
