-- ===== src/Server/Config/Accepted.antt =====
-- server/src/config.rs: what an accepted file says.
use t1_tp.Common.{
  List-cases, All, ℕ, ◌^◌, ◌<◌, ◌≡◌, ◌≢◌, inl, inr, refl, sym, ◌∙◌, ◌∷◌, [], List, false, Option,
  none, some, arith, Option-cases,
}
use mathlib.Core.Path.{subst}
use t1_tp.Common.Map.{Map, get, remove, text_key}
use t1_tp.Server.SimpleLogin.{File}
use t1_tp.Server.Config.{
  FileConfig, port_key, dump_path_key, dump_time_key, log_path_key, accounts_path_key, ip_key,
  log_file_level_key, log_stdout_level_key, parse_number, collect, parse_then, fields, of_table,
  new_from_file,
}
use t1_tp.Server.Config.Lookups.{
  parse_number-lt, remove_then-some, parse_then-some, unremoved, unremoved_each, remove_each,
}

-- A key of the table has a value that can be read, and what is read of it.
abbrev pub Reads : {P : Type 0} → (List ℕ → Option P) → List ℕ → Map (List ℕ) (List ℕ) → P → Type 0
Reads parse key table p = (text : List ℕ) × (get key table ≡ some text) × (parse text ≡ some p)

abbrev field_keys : List (List ℕ)
field_keys =
    port_key ∷ log_path_key ∷ accounts_path_key ∷ ip_key ∷ log_file_level_key ∷ log_stdout_level_key
    ∷ []

apart_from_path : All (λ j. text_key.same dump_path_key j ≡ false) field_keys
apart_from_path = (refl, (refl, (refl, (refl, (refl, (refl, tt))))))

apart_from_time : All (λ j. text_key.same dump_time_key j ≡ false) field_keys
apart_from_time = (refl, (refl, (refl, (refl, (refl, (refl, tt))))))

-- What a configuration says about the dump of the state.
abbrev pub Dumps : Map (List ℕ) (List ℕ) → Option (List ℕ × ℕ) → Type 0
Dumps table none = get dump_path_key table ≡ some []
Dumps table (some (path, time)) =
    (path ≢ [])
    × (get dump_path_key table ≡ some path)
    × Reads (parse_number (2 ^ 64)) dump_time_key table time

module _ {Level : Type 0} (parse_level : List ℕ → Option Level) where
  -- What a configuration says beside the dump.
  pub record Fields (table : Map (List ℕ) (List ℕ)) (c : FileConfig Level) : Type 0 where
    pub port_of : Reads (parse_number (2 ^ 16)) port_key table c.port
    pub port_lt : c.port < 2 ^ 16
    pub log_path_of : get log_path_key table ≡ some c.log_path
    pub accounts_path_of : get accounts_path_key table ≡ c.accounts_path
    pub ip_of : get ip_key table ≡ some c.ip
    pub log_file_level_of : Reads parse_level log_file_level_key table c.log_file_level
    pub log_stdout_level_of : Reads parse_level log_stdout_level_key table c.log_stdout_level

  fields-some :
      (dump_info : Option (List ℕ × ℕ)) (table : Map (List ℕ) (List ℕ)) (c : FileConfig Level)
      → fields parse_level dump_info table ≡ some c
      → (c.dump_info ≡ dump_info) × Fields table c
  unfolding fields
  fields-some dump_info table c h =
      let front = port_key ∷ log_path_key ∷ accounts_path_key ∷ [] in
      let behind = port_key ∷ log_path_key ∷ accounts_path_key ∷ ip_key ∷ [] in
      let last = port_key ∷ log_path_key ∷ accounts_path_key ∷ ip_key ∷ log_file_level_key ∷ [] in
      let t1 = remove port_key table in
      let t3 = remove_each front table in
      let t4 = remove_each behind table in
      let t5 = remove_each last table in
      let (port_text, port, e1, r1, h1) =
        parse_then-some port_key table (parse_number (2 ^ 16)) _ c h in
      let (log_path, e2, h2) = remove_then-some log_path_key t1 _ c h1 in
      let (ip, e3, h3) = remove_then-some ip_key t3 _ c h2 in
      let (file_text, file_level, e4, r4, h4) =
        parse_then-some log_file_level_key t4 parse_level _ c h3 in
      let (out_text, out_level, e5, r5, h5) =
        parse_then-some log_stdout_level_key t5 parse_level _ c h4 in
      let same_port : c.port ≡ port = cc in
      let below = parse_number-lt (2 ^ 16) port_text port (omega arith) r1 in
      (
        cc,
        record {
          port_of = (port_text, e1, cc);
          port_lt = omega arith;
          log_path_of = unremoved port_key log_path_key table _ refl e2 ∙ cc;
          accounts_path_of =
              unremoved_each (port_key ∷ log_path_key ∷ []) accounts_path_key table _
                (refl, (refl, tt)) refl
              ∙ cc;
          ip_of = unremoved_each front ip_key table _ (refl, (refl, (refl, tt))) e3 ∙ cc;
          log_file_level_of = (
            file_text,
            unremoved_each behind log_file_level_key table _ (refl, (refl, (refl, (refl, tt)))) e4,
            cc,
          );
          log_stdout_level_of = (
            out_text,
            unremoved_each last log_stdout_level_key table _
                (refl, (refl, (refl, (refl, (refl, tt))))) e5,
            cc,
          );
        },
      )

  Reads-unremoved :
      {P : Type 0} (parse : List ℕ → Option P) (k j : List ℕ) (table : Map (List ℕ) (List ℕ))
      (p : P)
      → text_key.same k j ≡ false
      → Reads parse j (remove k table) p
      → Reads parse j table p
  Reads-unremoved parse k j table p apart (text, found, read) =
      (text, unremoved k j table (some text) apart found, read)

  Fields-unremoved :
      (k : List ℕ) (table : Map (List ℕ) (List ℕ)) (c : FileConfig Level)
      → All (λ j. text_key.same k j ≡ false) field_keys
      → Fields (remove k table) c
      → Fields table c
  Fields-unremoved k table c (a1, (a2, (a3, (a4, (a5, (a6, end)))))) f = record {
    port_of = Reads-unremoved (parse_number (2 ^ 16)) k port_key table c.port a1 f.port_of;
    port_lt = f.port_lt;
    log_path_of = unremoved k log_path_key table _ a2 f.log_path_of;
    accounts_path_of = unremoved k accounts_path_key table _ a3 f.accounts_path_of;
    ip_of = unremoved k ip_key table _ a4 f.ip_of;
    log_file_level_of =
        Reads-unremoved parse_level k log_file_level_key table c.log_file_level a5
          f.log_file_level_of;
    log_stdout_level_of =
        Reads-unremoved parse_level k log_stdout_level_key table c.log_stdout_level a6
          f.log_stdout_level_of;
  }

  of_table-some :
      (table : Map (List ℕ) (List ℕ)) (c : FileConfig Level)
      → of_table parse_level table ≡ some c
      → Dumps table c.dump_info × Fields table c
  unfolding of_table
  of_table-some table c h =
      let left = remove dump_path_key table in
      let (dump_path, e1, h1) = remove_then-some dump_path_key table _ c h in
      elim (List-cases dump_path) [
        | inl nothing ↦
            let (same, f) = fields-some none left c cc in
            (
              subst (Dumps table) (sym same) cc,
              Fields-unremoved dump_path_key table c apart_from_path f,
            )
        | inr (x, xs, something) ↦
            let h' : parse_then (parse_number (2 ^ 64)) dump_time_key left
                  (λ time config. fields parse_level (some (dump_path, time)) config)
                ≡ some c =
              cc in
            let (text, time, e2, r2, h2) =
              parse_then-some dump_time_key left (parse_number (2 ^ 64)) _ c h' in
            let (same, f) = fields-some (some (dump_path, time)) (remove dump_time_key left) c h2 in
            (
              subst (Dumps table) (sym same) (
                (λ e. absurd cc),
                e1,
                (text, unremoved dump_path_key dump_time_key table _ refl e2, r2),
              ),
              Fields-unremoved dump_path_key table c apart_from_path
                  (Fields-unremoved dump_time_key left c apart_from_time f),
            )
      ]

-- The fields of a configuration that is accepted are those of the table of the file, under their keys:
-- the port is a number of 16 bits, the levels can be parsed,
-- and the dump has a time, a number of 64 bits, unless its path is empty. No key that is taken out of
-- the table hides another one.
pub new_from_file-some :
    {Level : Type 0} (parse_level : List ℕ → Option Level) (file : File) (c : FileConfig Level)
    → new_from_file parse_level file ≡ some c
    → (table : Map (List ℕ) (List ℕ)) × (collect file [] ≡ some table)
      × Dumps table c.dump_info
      × Fields parse_level table c
unfolding new_from_file
new_from_file-some parse_level file c h = elim (Option-cases (collect file [])) [
  | inl refused ↦ absurd cc
  | inr (table, collected) ↦
      let (dump, others) = of_table-some parse_level table c cc in (table, collected, dump, others)
]
