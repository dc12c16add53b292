-- ===== src/SessionClock/Snapshots.antt =====
-- The snapshots of a pause of src/clubs/clubs.controller.ts are the play times of the seats.
use poker_crm_backend.Base.{
  ℕ, ◌≡◌, ==_iff, refl, Bool-cases, Option-cases, Option, none, some, List, [], ◌∷◌, ◌==◌,
  if◌then◌else◌, or_else, inl, inr,
}
use mathlib.Core.Option
use poker_crm_backend.Base.Int.{ℤ, pos}
use poker_crm_backend.SessionClock.{ParsedTableSessionClock, compute_player_play_seconds}
use poker_crm_backend.SessionClock.Pauses.{SeatedPlayer, snapshot_of, snapshots}

-- The seat of a player: that of the last entry.
abbrev pub seat_of : ℕ → List SeatedPlayer → Option ℤ
seat_of id [] = none
seat_of id (p ∷ ps) = elim (seat_of id ps) [
  | some seat ↦ some seat
  | none ↦ elim p.player_id [
    | none ↦ none
    | some key ↦ if key == id then some (or_else p.seated_at (pos 0)) else none
  ]
]

-- The seat that one entry gives the player.
abbrev entry_seat : ℕ → SeatedPlayer → Option ℤ
entry_seat id p = elim p.player_id [
  | none ↦ none
  | some key ↦ if key == id then some (or_else p.seated_at (pos 0)) else none
]

-- The snapshots are the play times of the seats.
module _ (clock : ParsedTableSessionClock) (now : ℤ) (id : ℕ) where
  abbrev played : ℤ → ℤ
  played seat = compute_player_play_seconds seat clock now (some id)

  snapshot_of-entry_seat :
      (p : SeatedPlayer) → snapshot_of clock now p id ≡ Option.map played (entry_seat id p)
  unfolding snapshot_of
  snapshot_of-entry_seat p = elim (Option-cases p.player_id) [
    | inl e ↦ rw e refl
    | inr (key, e) ↦ elim (Bool-cases (key == id)) [
      | inl same ↦ let is_id : key ≡ id = (==_iff key id).0 same in rw (e, same, is_id) refl
      | inr other ↦ rw (e, other) refl
    ]
  ]

  pub snapshots-seat_of :
      (ps : List SeatedPlayer) → snapshots clock now ps id ≡ Option.map played (seat_of id ps)
  unfolding snapshots
  snapshots-seat_of [] = refl
  snapshots-seat_of (p ∷ ps) = elim (Option-cases (seat_of id ps)) [
    | inl e ↦ rw (snapshots-seat_of ps, e) (snapshot_of-entry_seat p)
    | inr (seat, e) ↦ rw (snapshots-seat_of ps, e) refl
  ]
