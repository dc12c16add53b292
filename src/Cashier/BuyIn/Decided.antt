-- ===== src/Cashier/BuyIn/Decided.antt =====
-- A buy-in request of src/clubs/services/buyin-request.service.ts is decided at most once.
use poker_crm_backend.Base.{
  ℕ, ◌≡◌, refl, Bool, true, false, not, Option, some, List, ◌==◌, &&-parts,
}
use poker_crm_backend.Base.Int.{ℤ, pos, leb_ℤ}
use poker_crm_backend.Base.Text.{Text}
use poker_crm_backend.Base.Result.{
  ok, err, bad_request, not_found, throw_if-eq-ok, or_throw-eq-ok, ok-injective,
}
use poker_crm_backend.Base.Rows.{
  find?, update_where, find?-update_where, find?-update_implied, find?-sound, find?-weaker,
}
use poker_crm_backend.Entities.{Db, Player, BuyInRequest, is_pending_request}
use poker_crm_backend.Floor.Format.{NumberFormat}
use poker_crm_backend.Floor.Waitlist.{or_default}
use poker_crm_backend.Cashier.BuyIn.{
  is_buyin, processed, set_buyin, approve_buyin_request, reject_buyin_request,
}

-- The request is there, by its id and by its club, for a player that exists, and is pending no more.
pub record IsDecided (club id : ℕ) (players : List Player) (rows : List BuyInRequest) : Type 0 where
  pub row : BuyInRequest
  pub found : find? (is_buyin club id) rows ≡ some row
  pub closed : is_pending_request row.status ≡ false
  pub first : BuyInRequest
  pub first_found : find? (λ (o : BuyInRequest). o.id == id) rows ≡ some first
  pub first_closed : is_pending_request first.status ≡ false
  pub player : Player
  pub player_found : find? (λ (p : Player). p.id == row.player_id) players ≡ some player

-- A decision that is written by the id closes the request.
processed-IsDecided :
    (club id : ℕ) (f : BuyInRequest → BuyInRequest) (players : List Player)
    (rows : List BuyInRequest) {row : BuyInRequest} {player : Player}
    → ((o : BuyInRequest)
        → ((f o).id ≡ o.id)
          × ((f o).club_id ≡ o.club_id)
          × ((f o).player_id ≡ o.player_id)
          × (is_pending_request (f o).status ≡ false))
    → find? (is_buyin club id) rows ≡ some row
    → find? (λ (p : Player). p.id == row.player_id) players ≡ some player
    → IsDecided club id players (update_where (λ (o : BuyInRequest). o.id == id) f rows)
unfolding is_buyin
processed-IsDecided club id f players rows {row} {player} closes h k =
    let by_id : BuyInRequest → Bool = λ (o : BuyInRequest). o.id == id in
    let weaker : (o : BuyInRequest) → is_buyin club id o ≡ true → by_id o ≡ true =
      (λ o e. (&&-parts (o.id == id) (o.club_id == club) e).0) in
    let (first, l) = find?-weaker (is_buyin club id) by_id rows weaker h in
    record {
      row = f row;
      found =
          find?-update_implied (is_buyin club id) by_id f rows weaker
            (λ o. rw ((closes o).0, (closes o).1) refl) h;
      closed = (closes row).3;
      first = f first;
      first_found =
          find?-update_where by_id f rows (rw (closes first).0 (find?-sound by_id rows l)) l;
      first_closed = (closes first).3;
      player = player;
      player_found = rw (closes row).2 k;
    }

approved-IsDecided :
    (fmt : NumberFormat) (club id : ℕ) (dto : Option ℤ) (user now : ℕ) (db : Db) {r : ℤ × Db}
    → approve_buyin_request fmt club id dto user now db ≡ ok r
    → IsDecided club id r.1.players r.1.buyin_requests
unfolding approve_buyin_request set_buyin processed
approved-IsDecided fmt club id dto user now db {r} h =
    let (row, hr, h1) =
      or_throw-eq-ok (find? (is_buyin club id) db.buyin_requests) (not_found 0) _ h in
    let (player, hq, h2) =
      or_throw-eq-ok (find? (λ (p : Player). p.id == row.player_id) db.players) (not_found 0) _
        h1 in
    let (hp, h3) = throw_if-eq-ok (not (is_pending_request row.status)) (bad_request 0) _ h2 in
    let (ha, h4) =
      throw_if-eq-ok (leb_ℤ (or_default dto row.requested_amount) (pos 0)) (bad_request 1) _ h3 in
    rw (← ok-injective _ r h4) (
      processed-IsDecided club id _ db.players db.buyin_requests (λ o. (refl, refl, refl, refl)) hr
        hq)

-- A second decision of either kind is refused as one on a request that is not pending.
abbrev pub RefusesBuyIn : NumberFormat → ℕ → ℕ → Db → Type 0
RefusesBuyIn fmt club id db =
    (user now : ℕ)
    → ((dto : Option ℤ) → approve_buyin_request fmt club id dto user now db ≡ err (bad_request 0))
      × ((reason : Option Text)
          → reject_buyin_request club id reason user now db ≡ err (bad_request 0))

decided-RefusesBuyIn :
    (fmt : NumberFormat) (club id : ℕ) (db : Db)
    → IsDecided club id db.players db.buyin_requests
    → RefusesBuyIn fmt club id db
unfolding approve_buyin_request reject_buyin_request
decided-RefusesBuyIn fmt club id db d user now = (
  λ dto. rw (d.found, d.player_found, d.closed) refl,
  λ reason. rw (d.found, d.first_found, d.first_closed) refl,
)

-- A buy-in request that was approved refuses every later approval and rejection.
pub approve_buyin_request-once :
    (fmt : NumberFormat) (club id : ℕ) (dto : Option ℤ) (user now : ℕ) (db : Db) {r : ℤ × Db}
    → approve_buyin_request fmt club id dto user now db ≡ ok r
    → RefusesBuyIn fmt club id r.1
approve_buyin_request-once fmt club id dto user now db {r} h =
    decided-RefusesBuyIn fmt club id r.1 (approved-IsDecided fmt club id dto user now db h)
