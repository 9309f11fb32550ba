-- ===== src/Apply/Sections.antt =====
-- apply/apply.go: a section of the drop-in, as Render writes it and parseOurs reads it.
use fpm_tune.Common.{ℕ, String}
use fpm_tune.Allocate.Compute.Lines.{PoolPlan, Reason}

-- The settings of a section; one that is not written is zero.
pub record Settings : Type 0 where
  pub max_children : ℕ
  pub start_servers : ℕ
  pub min_spare : ℕ
  pub max_spare : ℕ

abbrev pub no_settings : Settings
no_settings = record { max_children = 0; start_servers = 0; min_spare = 0; max_spare = 0 }

-- What Render reads of a plan's line; the reason is its text.
pub record Override : Type 0 where
  pub name : String
  pub reason : String
  pub settings : Settings

unfoldable pub override_of : (text : Reason → String) → PoolPlan → Override
override_of text l = record {
  name = l.name;
  reason = text l.reason;
  settings = record {
    max_children = l.max_children;
    start_servers = l.start_servers;
    min_spare = l.min_spare;
    max_spare = l.max_spare;
  };
}
