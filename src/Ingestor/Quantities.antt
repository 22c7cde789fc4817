-- ===== src/Ingestor/Quantities.antt =====
-- What the ingestor makes of the quantities in a block that a node answers.
use chainmesh.Base.{ℕ, some, String, List, ◌∷◌}
use chainmesh.Base.Hex.{Hex, render}
use chainmesh.Base.Int.{pos}
use chainmesh.Model.{Block}
use chainmesh.Json.{Json}
use chainmesh.Ingestor.{BlockJson, count_items}

-- "0x" and hexadecimal digits in lower case, the most significant first.
abbrev pub quantity : List Hex → String
quantity hs = String.◌∷◌ "0" (String.◌∷◌ "x" (render hs))

-- The block with the numbers that the digits stand for.
abbrev pub block_with : String → Json → BlockJson → ℕ → ℕ → Block
block_with network_id result b number timestamp = record {
  number = pos number;
  hash = b.hash;
  parent_hash = b.parent_hash;
  timestamp = pos timestamp;
  tx_count = count_items b.transactions;
  network_id = network_id;
  network_name = "";
  raw_json = some result;
}
