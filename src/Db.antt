-- ===== src/Db.antt =====
-- backend/src/db/schema/: the tables, as lists of rows in no particular order, and what the
-- services ask of them. Ids are the text of a UUID, times are milliseconds.
pub mod Migrate
pub mod Rows
pub mod Query
pub mod Sql
pub mod Joins
use crew_link.Base.{ℤ, String, Option, List}
use crew_link.Number.{Number}

pub record User : Type 0 where
  pub id : String
  pub apple_user_id : String
  pub display_name : String
  pub email : Option String
  pub created_at : ℤ
  pub updated_at : ℤ

pub data ConvoyStatus : Type 0 where
  lobby active ended : ConvoyStatus

pub record Convoy : Type 0 where
  pub id : String
  pub owner_user_id : String
  pub name : String
  pub invite_code : String
  pub status : ConvoyStatus
  pub proximity_threshold_m : ℤ
  pub created_at : ℤ
  pub started_at : Option ℤ
  pub ended_at : Option ℤ
  pub destination_lat : Option Number
  pub destination_lng : Option Number
  pub destination_label : Option String

pub data ConvoyMemberRole : Type 0 where
  owner member : ConvoyMemberRole

pub record Point : Type 0 where
  pub longitude : Number
  pub latitude : Number

pub record ConvoyMember : Type 0 where
  pub id : String
  pub convoy_id : String
  pub user_id : String
  pub vehicle_id : Option String
  pub role : ConvoyMemberRole
  pub joined_at : ℤ
  pub left_at : Option ℤ
  pub last_known_position : Option Point
  pub last_position_at : Option ℤ

pub record Vehicle : Type 0 where
  pub id : String
  pub user_id : String
  pub make : String
  pub model : String
  pub year : Option ℤ
  pub color : Option String
  pub power_kw : Option ℤ
  pub drivetrain : Option String
  pub displacement : Option ℤ
  pub transmission_type : Option String
  pub photo_url : Option String
  pub created_at : ℤ
  pub updated_at : ℤ

pub record VehicleMod : Type 0 where
  pub id : String
  pub vehicle_id : String
  pub name : String
  pub description : Option String
  pub category : Option String
  pub created_at : ℤ

pub record Tables : Type 0 where
  pub users : List User
  pub convoys : List Convoy
  pub convoy_members : List ConvoyMember
  pub vehicles : List Vehicle
  pub vehicle_mods : List VehicleMod
