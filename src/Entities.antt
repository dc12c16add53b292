-- ===== src/Entities.antt =====
-- The rows that the services read and write (src/clubs/entities), and the database as one value.
pub mod Ledger
pub mod Floor
pub mod Requests
pub use Ledger.*
pub use Floor.*
pub use Requests.*
use Prim.Native.Nat.{ℕ, ◌+◌}
use mathlib.Core.List.{List, ◌∷◌}

-- The tables of the database that the services of the floor and the cashier share. `next_id` is
-- the generator of fresh primary keys.
pub record Db : Type 0 where
  pub clubs : List ℕ
  pub players : List Player
  pub tables : List Table
  pub entries : List WaitlistEntry
  pub ledger : List Transaction
  pub credit_requests : List CreditRequest
  pub buyin_requests : List BuyInRequest
  pub buyout_requests : List BuyOutRequest
  pub rakes : List RakeCollection
  pub next_id : ℕ

-- `INSERT INTO financial_transactions`: the row gets the next key.
abbrev pub post : (ℕ → Transaction) → Db → Db
post row db = record db { ledger = row db.next_id ∷ db.ledger; next_id = db.next_id + 1 }
