-- ===== src/Proto/Types.antt =====
-- What the prototype keeps. A value that is null in the example data is `none`.
use tenancit.Base.{Bool, List, Option, Text}

pub record Domain : Type 0 where
  pub id : Text
  pub hostname : Text

pub record Resource : Type 0 where
  pub id : Text
  pub definition_key : Text
  pub definition_name : Text
  pub status : Text
  pub values : List (Text × Option Text)

pub record Tenant : Type 0 where
  pub id : Text
  pub slug : Text
  pub name : Text
  pub status : Text
  pub domains : List Domain
  pub resources : List Resource

pub record Field : Type 0 where
  pub id : Text
  pub key : Text
  pub label : Text
  pub data_type : Text
  pub required : Bool
  pub is_secret : Bool

pub record Definition : Type 0 where
  pub id : Text
  pub key : Text
  pub name : Text
  pub status : Text
  pub icon : Text
  pub description : Text
  pub fields : List Field

pub record ApiClient : Type 0 where
  pub id : Text
  pub name : Text
  pub status : Text
  pub key_preview : Text
  pub created_at : Text

pub record State : Type 0 where
  pub tenants : List Tenant
  pub definitions : List Definition
  pub api_clients : List ApiClient
