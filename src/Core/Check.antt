-- ===== src/Core/Check.antt =====
-- core/check.go: checks, what they observe, and the response that they are collected in.
pub mod Encode
pub mod Decode
pub mod Schema
use go_health.Prelude.{String, List, [], Option}
use go_health.Go.Exec.{Exec}
use go_health.Go.Duration.{ℤ}
use go_health.Go.Context.{Context}
use go_health.Go.Json.{Value, nil}
use go_health.Core.Status.{Status}

pub record Result : Type 0 where
  pub component_id : String
  pub status : Status
  pub observed_value : Value
  pub observed_unit : String
  pub output : String
  pub affected_endpoints : List String
  pub links : List (String × String)

-- Result{}
abbrev pub zero_result : Result
zero_result = record {
  component_id = "";
  status = "";
  observed_value = nil;
  observed_unit = "";
  output = "";
  affected_endpoints = [];
  links = [];
}

-- `run` is none where the function value is nil.
pub record Check : Type 0 where
  pub name : String
  pub component_type : String
  pub timeout : ℤ
  pub run : Option (Context → Exec (List Result))

pub record ComponentStatus : Type 0 where
  pub component_id : String
  pub component_type : String
  pub observed_value : Value
  pub observed_unit : String
  pub status : Status
  pub affected_endpoints : List String
  pub time : String
  pub output : String
  pub links : List (String × String)

pub record HealthResponse : Type 0 where
  pub status : Status
  pub service_id : String
  pub description : String
  pub checks : List (String × List ComponentStatus)
