-- ===== src/Model/Charts.antt =====
-- Helm charts, by the parts of their metadata that the program reads.
use helm_broker.Common.{String, Option}

pub record ChartMetadata : Type 0 where
  pub name : String
  pub version : String

pub record Chart : Type 0 where
  pub metadata : Option ChartMetadata
  pub content : String
