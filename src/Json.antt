-- ===== src/Json.antt =====
-- JSON values, as `JSON.parse` and the database driver give them; numbers are natural ones.
use taskfire.Prelude.{ℕ, String, Bool, Option, none, some, ◌==◌, if◌then◌else◌}

mutual
  pub data Json : Type 0 where
    null : Json
    boolean : Bool → Json
    number : ℕ → Json
    text : String → Json
    array : Elements → Json
    object : Members → Json

  pub data Elements : Type 0 where
    nil : Elements
    cons : Json → Elements → Elements

  pub data Members : Type 0 where
    end : Members
    member : String → Json → Members → Members

-- The value of an object's key.
unfoldable pub property : String → Members → Option Json
property key end = none
property key (member k v ms) = if k == key then some v else property key ms
