-- ===== src/Conformance/Platform.antt =====
-- What the suite takes from the Go standard library and does not implement.
use cluster_inventory_api.Common.{String, Option}

-- The parts of a url.URL that the suite reads
pub record Url : Type 0 where
  pub scheme : String
  pub host : String

pub record Platform : Type 0 where
  -- time.Parse(time.RFC3339Nano, s): the error's text, if there is one
  pub date_fault : String → Option String
  -- url.Parse, without the error's text
  pub parse_url : String → Option Url
  -- the hexadecimal SHA-256 of the catalog's JSON
  pub catalog_digest : String
