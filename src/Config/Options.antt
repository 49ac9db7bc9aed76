-- ===== src/Config/Options.antt =====
-- The command line sets what its options say.
use true_store.Base.{
  ℕ, zero, ◌≡◌, refl, sym, ap, ◌∙◌, true, none, some, List, [], ◌∷◌, ◌++◌, append_assoc, append-nil,
  arith, All,
}
use true_store.Text.{Bytes, codes, ◌=ᵇ◌}
use true_store.Text.Parse.{atoi}
use true_store.Config.{
  Config, default_config, split_space, replica_of, parse_option, parse_rest, parse_args,
}

-- One option with its values.
pub data Setting : Type 0 where
  port_of : Bytes → Setting
  dir_of dbfilename_of appendonly_of appenddirname_of appendfilename_of appendfsync_of :
      Bytes → Setting
  replica replica_pair : Bytes → Bytes → Setting

-- The arguments of a setting.
unfoldable pub written : Setting → List Bytes
written (port_of text) = codes "--port" ∷ text ∷ []
written (dir_of value) = codes "--dir" ∷ value ∷ []
written (dbfilename_of value) = codes "--dbfilename" ∷ value ∷ []
written (appendonly_of value) = codes "--appendonly" ∷ value ∷ []
written (appenddirname_of value) = codes "--appenddirname" ∷ value ∷ []
written (appendfilename_of value) = codes "--appendfilename" ∷ value ∷ []
written (appendfsync_of value) = codes "--appendfsync" ∷ value ∷ []
written (replica host text) = codes "--replicaof" ∷ host ∷ text ∷ []
written (replica_pair host text) = codes "--replicaof" ∷ (host ++ b' ' ∷ text) ∷ []

-- What a setting is for.
unfoldable pub apply : Setting → Config → Config
apply (port_of text) c = record c { port = atoi text }
apply (dir_of value) c = record c { dir = value }
apply (dbfilename_of value) c = record c { dbfilename = value }
apply (appendonly_of value) c = record c { appendonly = value }
apply (appenddirname_of value) c = record c { appenddirname = value }
apply (appendfilename_of value) c = record c { appendfilename = value }
apply (appendfsync_of value) c = record c { appendfsync = value }
apply (replica host text) c = record c {
  is_replica = true;
  master_host = host;
  master_port = atoi text;
}
apply (replica_pair host text) c = record c {
  is_replica = true;
  master_host = host;
  master_port = atoi text;
}

abbrev pub apply_all : List Setting → Config → Config
apply_all [] c = c
apply_all (setting ∷ settings) c = apply_all settings (apply setting c)

abbrev pub written_all : List Setting → List Bytes
written_all [] = []
written_all (setting ∷ settings) = written setting ++ written_all settings

-- The host of a primary is one word.
abbrev pub OneWord : Setting → Type 0
OneWord (replica host text) = split_space host ≡ none
OneWord (replica_pair host text) = split_space host ≡ none
OneWord _ = Unit

split_space-append :
    (host text : Bytes)
    → split_space host ≡ none
    → split_space (host ++ b' ' ∷ text) ≡ some (host, text)
unfolding split_space
split_space-append [] text h = refl
split_space-append (c ∷ host) text h = ground (arith, h, split_space-append host text)

replica_words :
    (host text : Bytes) (rest : List Bytes) (c : Config)
    → split_space host ≡ none
    → replica_of host (text ∷ rest) c ≡ (2, apply (replica host text) c)
unfolding replica_of apply
replica_words host text rest c h = rw (replica_of, h) refl

replica_one :
    (host text : Bytes) (rest : List Bytes) (c : Config)
    → split_space host ≡ none
    → replica_of (host ++ b' ' ∷ text) rest c ≡ (1, apply (replica_pair host text) c)
unfolding replica_of apply
replica_one host text rest c h = rw (replica_of, split_space-append host text h) refl

parse_setting :
    (setting : Setting) (rest : List Bytes) (c : Config)
    → OneWord setting
    → parse_rest zero (written setting ++ rest) c ≡ parse_rest zero rest (apply setting c)
unfolding written apply parse_rest parse_option replica_of ◌=ᵇ◌
parse_setting (port_of text) rest c h = refl
parse_setting (dir_of value) rest c h = refl
parse_setting (dbfilename_of value) rest c h = refl
parse_setting (appendonly_of value) rest c h = refl
parse_setting (appenddirname_of value) rest c h = refl
parse_setting (appendfilename_of value) rest c h = refl
parse_setting (appendfsync_of value) rest c h = refl
parse_setting (replica host text) rest c h =
    ap (λ (r : ℕ × Config). parse_rest r.0 (host ∷ text ∷ rest) r.1)
      (replica_words host text rest c h)
parse_setting (replica_pair host text) rest c h =
    ap (λ (r : ℕ × Config). parse_rest r.0 ((host ++ b' ' ∷ text) ∷ rest) r.1)
      (replica_one host text rest c h)

parse_settings :
    (settings : List Setting) (rest : List Bytes) (c : Config)
    → All OneWord settings
    → parse_rest zero (written_all settings ++ rest) c ≡ parse_rest zero rest (apply_all settings c)
parse_settings [] rest c h = refl
parse_settings (setting ∷ settings) rest c (word, h) =
    ap (λ (args : List Bytes). parse_rest zero args c)
      (append_assoc (written setting) (written_all settings) rest)
    ∙ parse_setting setting (written_all settings ++ rest) c word
    ∙ parse_settings settings rest (apply setting c) h

-- A command line of options with their values sets exactly those, a later one in place of an
-- earlier one, where `--replicaof` has a host without a space, either as an argument in front of
-- the port or in one argument with it; an option without a value at its end changes nothing.
pub parse_args_sets :
    (current_path : Bytes) (settings : List Setting) (option : Bytes)
    → All OneWord settings
    → (parse_args current_path (written_all settings)
        ≡ apply_all settings (default_config current_path))
      × (parse_args current_path (written_all settings ++ option ∷ [])
          ≡ apply_all settings (default_config current_path))
unfolding parse_args
parse_args_sets current_path settings option h = (
  ap (λ (args : List Bytes). parse_rest zero args (default_config current_path))
        (sym (append-nil (written_all settings)))
      ∙ parse_settings settings [] (default_config current_path) h
      ∙ nothing (apply_all settings (default_config current_path)),
  parse_settings settings (option ∷ []) (default_config current_path) h
      ∙ dangling (apply_all settings (default_config current_path)),
)
  where
    nothing : (c : Config) → parse_rest zero [] c ≡ c
    nothing c = unfold parse_rest in refl

    dangling : (c : Config) → parse_rest zero (option ∷ []) c ≡ c
    dangling c = unfold parse_rest in unfold parse_option in refl
