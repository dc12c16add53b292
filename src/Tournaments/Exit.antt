-- ===== src/Tournaments/Exit.antt =====
-- exitTournamentPlayer and rebuyTournamentPlayer of src/clubs/services/tournaments.service.ts, for
-- the primary key of a player; the look-up of a display name is not modelled.
use poker_crm_backend.Base.{
  ℕ, ◌+◌, ◌*◌, Bool, true, false, not, Option, none, some, ◌++◌, ◌&&◌, ◌==◌, if◌then◌else◌, is_some,
  ltb,
}
use poker_crm_backend.Base.Int.{ℤ, pos, ◌+ℤ◌, ◌-ℤ◌, neg, ltb_ℤ, max_ℤ, min_ℤ}
use poker_crm_backend.Base.Result.{
  Result, ok, bad_request, not_found, ◌>>=◌, ◌>>◌, throw_if, or_throw,
}
use poker_crm_backend.Base.Text.{Text, codes, is_empty}
use poker_crm_backend.Base.Rows.{find?}
use poker_crm_backend.Entities.{Db, Player, TransactionType, completed_row, post}
use poker_crm_backend.Ledger.{wallet_balance, credit_balance}
use poker_crm_backend.Tournaments.{Tournament, BlindStructure, is_active}
use poker_crm_backend.Tournaments.State.{
  TournamentPlayer, TournamentDb, Registration, get_tournament, set_entrants, is_entrant,
  new_entrant, upsert_entrant,
}
use poker_crm_backend.Tournaments.Play.{game_type_of, game_label}

unfoldable pub has_id : ℕ → Player → Bool
has_id id p = p.id == id

unfoldable pub is_registration : ℕ → ℕ → Registration → Bool
is_registration tournament player r = r.tournament_id == tournament && r.player_id == player

-- `existing ?? started`
unfoldable pub or_started : Option ℕ → Option ℕ → Option ℕ
or_started none started = started
or_started (some at) started = some at

-- The start of the session of a player who is entered late.
unfoldable pub session_start : Tournament → ℕ → Option ℕ
session_start t now = or_started t.session_started_at (some now)

-- A player without a row is given one.
unfoldable pub enrol : Tournament → ℕ → ℕ → ℕ → TournamentDb → TournamentDb
enrol t id player now s =
    if is_some (find? (is_entrant id player) s.tournament_players) then s else record s {
      tournament_players =
          upsert_entrant (new_entrant id player (session_start t now) t.buy_in)
            (λ (o : TournamentPlayer). record o {
              is_active = true;
              is_exited = false;
              session_started_at = or_started o.session_started_at (session_start t now);
              total_invested = o.total_invested +ℤ t.buy_in;
            })
            s.tournament_players;
    }

-- The rows after a registered player without a row was entered, or an error for a player who is
-- neither; and the player's row of `players`, which both queries join.
unfoldable pub entered :
    Tournament → ℕ → ℕ → ℕ → TournamentDb → Result (Player × TournamentPlayer × TournamentDb)
entered t id player now s = do
  p ← or_throw (find? (has_id player) s.floor.players) (not_found 1)
  throw_if
      (not (is_some (find? (is_entrant id player) s.tournament_players))
        && not (is_some (find? (is_registration id player) s.registrations)))
      (not_found 1)
  entry ←
      or_throw (find? (is_entrant id player) (enrol t id player now s).tournament_players)
        (not_found 1)
  ok (p, entry, enrol t id player now s)

-- `notes || d`
unfoldable pub notes_or : Option Text → Text → Text
notes_or none d = d
notes_or (some n) d = if is_empty n then d else n

-- `Math.max(0, Number(exitBalance) || 0)`
abbrev pub final_wallet : ℤ → ℤ
final_wallet balance = max_ℤ (pos 0) balance

-- The row that takes the wallet to the final amount.
unfoldable pub adjust_wallet : Tournament → ℕ → Player → ℤ → Option Text → ℕ → Db → Db
adjust_wallet t club p desired notes now db =
    let delta = desired -ℤ wallet_balance club p.id db.ledger in
    if ltb_ℤ (pos 0) delta
    then post
        (completed_row club p.id p.name delta TransactionType.refund (game_type_of t)
          (notes_or notes (game_label t ++ (codes " Tournament exit - " ++ t.name))) now)
        db
    else if ltb_ℤ delta (pos 0)
    then post
        (completed_row club p.id p.name (neg delta) TransactionType.withdrawal (game_type_of t)
          (notes_or notes (game_label t ++ (codes " Tournament exit adjustment - " ++ t.name))) now)
        db
    else db

unfoldable pub exit_debit_note : Tournament → Text
exit_debit_note t =
    codes "Credit settlement from " ++ (game_label t ++ (codes " tournament - " ++ t.name))

-- The settlement of credit from the final amount.
unfoldable pub settle_from : Tournament → ℕ → Player → ℤ → ℕ → Db → Db
settle_from t club p desired now db =
    let owed = max_ℤ (pos 0) (credit_balance club p.id db.ledger) in
    if ltb_ℤ (pos 0) owed && ltb_ℤ (pos 0) (min_ℤ owed desired)
    then post
        (completed_row club p.id p.name (min_ℤ owed desired) TransactionType.debit (game_type_of t)
          (exit_debit_note t) now)
        db
    else db

-- exitTournamentPlayer
unfoldable pub exit_tournament_player :
    ℕ → ℕ → ℕ → ℤ → Option Text → ℕ → TournamentDb → Result TournamentDb
exit_tournament_player club id player balance notes now s = do
  t ← get_tournament club id s
  throw_if (not (is_active t.status)) (bad_request 0)
  found ← entered t id player now s
  throw_if found.1.is_exited (bad_request 2)
  let s1 =
      set_entrants (is_entrant id player)
        (λ (o : TournamentPlayer). record o {
          is_exited = true;
          exited_at = some now;
          exit_balance = balance;
          is_active = false;
          session_started_at = none;
        })
        found.2
  let db1 = adjust_wallet t club found.0 (final_wallet balance) notes now s1.floor
  ok record s1 { floor = settle_from t club found.0 (final_wallet balance) now db1 }

pub data RebuyType : Type 0 where
  rebuy reentry addon : RebuyType

unfoldable pub allows : RebuyType → BlindStructure → Bool
allows RebuyType.rebuy s = s.allow_rebuys
allows RebuyType.reentry s = s.allow_reentry
allows RebuyType.addon s = s.allow_addon

-- The amount: an add-on may name its own, from above 0.
unfoldable pub rebuy_amount : RebuyType → Option ℤ → ℤ → ℤ
rebuy_amount RebuyType.addon (some a) buy_in = if ltb_ℤ (pos 0) a then a else buy_in
rebuy_amount _ custom buy_in = buy_in

unfoldable pub is_addon : RebuyType → Bool
is_addon RebuyType.addon = true
is_addon _ = false

-- The window for a re-entry, in minutes since the start; no window where it is 0.
unfoldable pub window_closed : RebuyType → Tournament → ℕ → Bool
window_closed RebuyType.reentry t now = elim t.session_started_at [
  | none ↦ false
  | some start ↦
      ltb 0 t.structure.late_registration && ltb (start + t.structure.late_registration * 60000) now
]
window_closed _ t now = false

unfoldable pub rebought : RebuyType → ℤ → ℕ → TournamentPlayer → TournamentPlayer
rebought RebuyType.rebuy a now p = record p {
  is_exited = false;
  is_active = true;
  exited_at = none;
  exit_balance = pos 0;
  rebuy_count = p.rebuy_count + 1;
  total_invested = p.total_invested +ℤ a;
}
rebought RebuyType.reentry a now p = record p {
  is_exited = false;
  is_active = true;
  exited_at = none;
  exit_balance = pos 0;
  rebuy_count = p.rebuy_count + 1;
  total_invested = p.total_invested +ℤ a;
  session_started_at = some now;
}
rebought RebuyType.addon a now p = record p {
  addon_count = p.addon_count + 1;
  total_invested = p.total_invested +ℤ a;
}

abbrev pub type_text : RebuyType → Text
type_text RebuyType.rebuy = codes "rebuy"
type_text RebuyType.reentry = codes "reentry"
type_text RebuyType.addon = codes "addon"

-- rebuyTournamentPlayer
unfoldable pub rebuy_tournament_player :
    ℕ → ℕ → ℕ → RebuyType → Option ℤ → ℕ → TournamentDb → Result TournamentDb
rebuy_tournament_player club id player type custom now s = do
  t ← get_tournament club id s
  throw_if (not (is_active t.status)) (bad_request 0)
  throw_if (not (allows type t.structure)) (bad_request 1)
  throw_if (window_closed type t now) (bad_request 2)
  found ← entered t id player now s
  throw_if (not (is_addon type) && not found.1.is_exited) (bad_request 3)
  let a = rebuy_amount type custom t.buy_in
  let note = game_label t ++ (codes " Tournament " ++ (type_text type ++ (codes " - " ++ t.name)))
  let db =
      if ltb_ℤ (pos 0) a
      then post
          (completed_row club player found.0.name a TransactionType.buy_in (game_type_of t) note
            now)
          found.2.floor
      else found.2.floor
  ok (set_entrants (is_entrant id player) (rebought type a now) record found.2 { floor = db })
