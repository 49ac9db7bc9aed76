-- ===== src/Config.antt =====
-- config/config.hpp and config/config.cpp: the options of the command line.
pub mod Options
use true_store.Base.{
  ℕ, zero, suc, ◌+◌, ◌-◌, ◌*◌, ◌/◌, ◌%◌, ◌^◌, ◌≤◌, ◌<◌, String, ◌≡◌, refl, sym, ap, ◌∙◌, ◌≢◌, ◌↔◌,
  ◌⊎◌, inl, inr, Bool, true, false, not, ◌&&◌, ◌||◌, Option, none, some, List, [], ◌∷◌, ◌++◌, map,
  append_assoc, append-nil, arith, ltb, leb, ◌==◌, if◌then◌else◌, ltb→lt, lt→ltb, leb→le, le→leb,
  ltb-false, leb-false, ==_iff, tests, Bool-cases, Option-cases, List-cases, if_both, length,
  get_elem?, take, drop, get_or, set, replicate, All, length-append, drop-append, take-append,
  take-append-drop, length-take, length-drop, length-set, length-replicate, ℤ, pos, negsuc,
  pos_part, neg_part, sub_ℕ, ◌+ℤ◌, ◌-ℤ◌, ◌≤ℤ◌, ltb_ℤ, leb_ℤ, is_negative, of_bits, wrap_i64,
  wrap_i64_fits,
}
use true_store.Text.{
  Bytes, codes, ◌=ᵇ◌, less, toupper, tolower, to_upper, to_lower, to_upper_idem, crlf,
}
use true_store.Text.Parse.{atoi}

pub record Config : Type 0 where
  pub port : ℤ
  pub is_replica : Bool
  pub master_host : Bytes
  pub master_port : ℤ
  pub dir : Bytes
  pub dbfilename : Bytes
  pub appendonly : Bytes
  pub appenddirname : Bytes
  pub appendfilename : Bytes
  pub appendfsync : Bytes

-- The initial values; the directory is `std::filesystem::current_path`.
unfoldable pub default_config : Bytes → Config
default_config current_path = record {
  port = pos 6379;
  is_replica = false;
  master_host = [];
  master_port = pos 0;
  dir = current_path;
  dbfilename = [];
  appendonly = codes "no";
  appenddirname = codes "appendonlydir";
  appendfilename = codes "appendonly.aof";
  appendfsync = codes "everysec";
}

-- The text before the first space and the text behind it.
unfoldable pub split_space : Bytes → Option (Bytes × Bytes)
split_space [] = none
split_space (c ∷ s) =
    if c == b' '
    then some ([], s)
    else elim (split_space s) [ none ↦ none | some (before, after) ↦ some (c ∷ before, after) ]

-- `--replicaof` with the arguments behind it: how many of them it takes, and the new values.
unfoldable pub replica_of : Bytes → List Bytes → Config → ℕ × Config
replica_of arg rest config = elim (split_space arg) [
  | some (host, port) ↦
      (1, record config { is_replica = true; master_host = host; master_port = atoi port })
  | none ↦ elim rest [
    | [] ↦ (1, record config { is_replica = true; master_host = arg })
    | port ∷ _ ↦
        (2, record config { is_replica = true; master_host = arg; master_port = atoi port })
  ]
]

-- One argument and those behind it: how many of them it takes, and the new values.
unfoldable pub parse_option : Bytes → List Bytes → Config → ℕ × Config
parse_option option [] config = (0, config)
parse_option option (value ∷ rest) config =
    if option =ᵇ codes "--port"
    then (1, record config { port = atoi value })
    else if option =ᵇ codes "--dir"
    then (1, record config { dir = value })
    else if option =ᵇ codes "--dbfilename"
    then (1, record config { dbfilename = value })
    else if option =ᵇ codes "--replicaof"
    then replica_of value rest config
    else if option =ᵇ codes "--appendonly"
    then (1, record config { appendonly = value })
    else if option =ᵇ codes "--appenddirname"
    then (1, record config { appenddirname = value })
    else if option =ᵇ codes "--appendfilename"
    then (1, record config { appendfilename = value })
    else if option =ᵇ codes "--appendfsync"
    then (1, record config { appendfsync = value })
    else (0, config)

-- The loop of `parse_args`; so many of the next arguments have been taken.
unfoldable pub parse_rest : ℕ → List Bytes → Config → Config
parse_rest taken [] config = config
parse_rest zero (option ∷ rest) config =
    let (taken, changed) = parse_option option rest config in parse_rest taken rest changed
parse_rest (suc taken) (option ∷ rest) config = parse_rest taken rest config

-- The arguments behind the name of the program.
unfoldable pub parse_args : Bytes → List Bytes → Config
parse_args current_path args = parse_rest zero args (default_config current_path)
