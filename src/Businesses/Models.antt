-- ===== src/Businesses/Models.antt =====
-- The `businesses` table of app/modules/businesses/models.py.
use ops_pilot_be.Prelude.{Bool, String, Option, ◌==◌, ◌||◌, string_eq, nat_eq}
use ops_pilot_be.Repository.{Model}
use ops_pilot_be.Auth.Models.{Uuid, Time}

pub data SubscriptionPlan : Type 0 where
  free starter professional enterprise : SubscriptionPlan

pub record Business : Type 0 where
  pub id : Uuid
  pub name : String
  pub slug : String
  pub description : Option String
  pub industry : Option String
  pub logo_url : Option String
  pub email : Option String
  pub phone : Option String
  pub address : Option String
  pub subscription_plan : SubscriptionPlan
  pub is_active : Bool
  pub deleted_at : Option Time
  pub owner_id : Option Uuid

instance abbrev pub business_model : Model Business
business_model = record { id_of = λ (b : Business). b.id }

-- The primary key and the unique column `slug`.
abbrev pub business_clash : Business → Business → Bool
business_clash a b = b.id == a.id || b.slug == a.slug
