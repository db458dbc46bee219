-- ===== src/Dispatch/Model.antt =====
-- services/dispatch-service/model/model.go. `F` is the type of float64; times are counts of
-- nanoseconds, counters are unbounded.
use faisalaffan_design_syste.Base.{ℕ, String, ◌≡◌, ◌↔◌, true, Option, List, arith, nat_beq, HasEq}

pub data DriverState : Type 0 where
  offline idle assigned to_hub picking delivering completed : DriverState

abbrev pub rank : DriverState → ℕ
rank offline = 0
rank idle = 1
rank assigned = 2
rank to_hub = 3
rank picking = 4
rank delivering = 5
rank completed = 6

rank_inj : (s t : DriverState) → rank s ≡ rank t → s ≡ t
rank_inj s t h = ground arith

pub same_state_iff : (s t : DriverState) → (nat_beq (rank s) (rank t) ≡ true) ↔ (s ≡ t)
same_state_iff s t = ground (arith, rank_inj s t)

instance abbrev pub driver_state_key : HasEq DriverState
driver_state_key = record { test = λ s t. nat_beq (rank s) (rank t); test_iff = same_state_iff }

pub data OrderStatus : Type 0 where
  pending order_assigned dispatched delivered failed : OrderStatus

pub record Location (F : Type 0) : Type 0 where
  pub lat : F
  pub lng : F

pub record OrderItem : Type 0 where
  pub product_id : String
  pub name : String
  pub quantity : ℕ

pub record Order (F : Type 0) : Type 0 where
  pub id : String
  pub customer_id : String
  pub items : List OrderItem
  pub total : F
  pub status : OrderStatus
  pub priority : ℕ
  pub created_at : ℕ
  pub delivery_location : Location F
  pub hub_id : String
  pub assigned_driver_id : String
  pub batch_id : String

pub record Driver (F : Type 0) : Type 0 where
  pub id : String
  pub name : String
  pub location : Location F
  pub status : DriverState
  pub load : ℕ
  pub max_load : ℕ
  pub total_deliveries : ℕ
  pub last_assigned_at : ℕ
  pub skipped_count : ℕ

-- The status strings of an assignment.
pub data AssignmentStatus : Type 0 where
  waiting accepted rejected timeout cancelled : AssignmentStatus

pub record Assignment (F : Type 0) : Type 0 where
  pub id : String
  pub order_id : String
  pub driver_id : String
  pub status : AssignmentStatus
  pub score : F
  pub attempt : ℕ
  pub created_at : ℕ
  pub accepted_at : Option ℕ
  pub rejected_at : Option ℕ

pub record BatchConfig : Type 0 where
  pub max_window : ℕ
  pub min_orders : ℕ

-- The scoring weights w1 to w5.
pub record MatchScore (F : Type 0) : Type 0 where
  pub w1 : F
  pub w2 : F
  pub w3 : F
  pub w4 : F
  pub w5 : F

pub record StateTransitionEvent : Type 0 where
  pub driver_id : String
  pub from_state : DriverState
  pub to_state : DriverState
  pub timestamp : ℕ
  pub reason : String

abbrev pub default_batch_config : BatchConfig
default_batch_config = record { max_window = 10_000_000_000; min_orders = 5 }
