-- ===== src/Target.antt =====
-- `GpaTarget` and `MemcmpFilter` of src/config.rs: an account query with its filters.
use rpc_latency_monitor.Prelude.{ℕ, String, Option, List, [], ◌∷◌, some}

pub record MemcmpFilter : Type 0 where
  pub offset : ℕ
  pub bytes : String

pub record GpaTarget : Type 0 where
  pub name : String
  pub program : String
  pub data_size : Option ℕ
  pub memcmp : List MemcmpFilter

abbrev pub derived_target_prefix : String
derived_target_prefix = "derived_"

-- The constants of src/rpc/methods.rs that describe SPL token accounts.
abbrev pub usdc_mint : String
usdc_mint = "EPjFWdd5AufqSSqeM2qN1xzybapC8G4wEGGkZwyTDt1v"

abbrev pub usdt_mint : String
usdt_mint = "Es9vMFrzaCERmJfrF4H2FYD4KCoNkY11McCe8BenwNYB"

abbrev pub wsol_mint : String
wsol_mint = "So11111111111111111111111111111111111111112"

abbrev pub token_program : String
token_program = "TokenkegQfeZyiNwAJbNbGKPFXCWuBvf9Ss623VQ5DA"

abbrev pub gpa_token_owner : String
gpa_token_owner = "9WzDXwBbmkg8ZTbNMqUxvQRAyrZzDsGYdLVL9zYtAWWM"

abbrev pub high_volume_mints : List String
high_volume_mints = usdc_mint ∷ usdt_mint ∷ wsol_mint ∷ []

abbrev pub token_account_len : ℕ
token_account_len = 165

abbrev pub token_account_mint_offset : ℕ
token_account_mint_offset = 0

abbrev pub token_account_owner_offset : ℕ
token_account_owner_offset = 32

abbrev pub builtin_token_owner_target : GpaTarget
builtin_token_owner_target = record {
  name = "token_owner";
  program = token_program;
  data_size = some token_account_len;
  memcmp = record { offset = token_account_owner_offset; bytes = gpa_token_owner } ∷ [];
}
