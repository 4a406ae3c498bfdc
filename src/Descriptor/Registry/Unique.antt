-- ===== src/Descriptor/Registry/Unique.antt =====
-- internal/descriptor/registry.go: the name by which generated code calls a Go package stands for one
-- path.
use grpc_gateway.Prelude.{
  ℕ, zero, suc, ◌≡◌, refl, sym, ◌∙◌, ap, subst, false, List, [], ◌∷◌, ◌++◌, Option, none, some,
  Text, codes, length, text_eq, text_eq→eq, get, put, get-put_self, get-put_other, get-put-cases,
  is_empty, if◌then◌else◌, Bool-cases, inl, inr, arith,
}
use grpc_gateway.Descriptor.Protos.{ProtogenFile}
use grpc_gateway.Descriptor.Types.{GoPackage, pkg, FileEntry}
use grpc_gateway.Descriptor.Registry.{
  Registry, reserve_go_package_alias, numbered, alias_loop, reserve_package, alias_or_loop, title,
  register_file, load_file, load_files,
}
use grpc_gateway.Descriptor.Registry.Names.{some_injective}
use grpc_gateway.Descriptor.Registry.{reserve_where}

-- The aliases `after` have `alias` for `path`, and all that `before` has.
record Reserves (alias path : Text) (before after : List (Text × Text)) : Type 0 where
  taken : get alias after ≡ some path
  kept : (k p : Text) → get k before ≡ some p → get k after ≡ some p

reserve-Reserves :
    (alias path : Text) (before after : List (Text × Text))
    → reserve_go_package_alias alias path before ≡ some after
    → Reserves alias path before after
unfolding reserve_go_package_alias
reserve-Reserves alias path before after e = found (get alias before) refl e
  where
    kept :
        get alias before ≡ none
        → (k p : Text) → get k before ≡ some p
        → get k (put alias path before) ≡ some p
    kept free k p h = elim (Bool-cases (text_eq alias k)) [
      | inr n ↦ get-put_other alias k path before n ∙ h
      | inl same ↦ cc (ap (λ k. get k before) (text_eq→eq alias k same))
    ]

    found :
        (o : Option Text)
        → get alias before ≡ o
        → reserve_where o alias path before ≡ some after
        → Reserves alias path before after
    found none free e =
        subst (Reserves alias path before) (some_injective (put alias path before) after e)
          (record { taken = get-put_self alias path before; kept = kept free })
    found (some t) had e = elim (Bool-cases (text_eq t path)) [
      | inl same ↦
          subst (Reserves alias path before) (some_injective before after (ground arith))
            (record { taken = had ∙ ap some (text_eq→eq t path same); kept = λ k p h. h })
      | inr other ↦ ground arith
    ]

alias_loop-Reserves :
    (f i : ℕ) (name path : Text) (before : List (Text × Text)) (alias : Text)
    (after : List (Text × Text))
    → alias_loop f i name path before ≡ some (alias, after)
    → Reserves alias path before after × (is_empty alias ≡ false)
unfolding alias_loop
alias_loop-Reserves zero i name path before alias after e = cc
alias_loop-Reserves (suc f) i name path before alias after e =
    round (reserve_go_package_alias (numbered name i) path before)
      (reserve-Reserves (numbered name i) path before)
      (alias_loop-Reserves f (suc i) name path before alias after) e
  where
    not_empty : (name : Text) (i : ℕ) → is_empty (numbered name i) ≡ false
    not_empty [] i = refl
    not_empty (c ∷ name) i = refl

    round :
        (o : Option (List (Text × Text)))
        → ((a : List (Text × Text)) → o ≡ some a → Reserves (numbered name i) path before a)
        → (alias_loop f (suc i) name path before ≡ some (alias, after)
            → Reserves alias path before after × (is_empty alias ≡ false))
        → elim o [
          | some a ↦ some (numbered name i, a)
          | none ↦ alias_loop f (suc i) name path before
        ]
          ≡ some (alias, after)
        → Reserves alias path before after × (is_empty alias ≡ false)
    round none first later e = later e
    round (some a) first later e =
        subst (λ q. Reserves q.0 path before q.1 × (is_empty q.0 ≡ false))
          (some_injective (numbered name i, a) (alias, after) e) (first a refl, not_empty name i)

abbrev called : GoPackage → Text
called p = if is_empty p.alias then p.name else p.alias

alias_or_loop-Reserves :
    (o : Option (List (Text × Text))) (p q : GoPackage) (before after : List (Text × Text))
    → ((a : List (Text × Text)) → o ≡ some a → Reserves p.name p.path before a)
    → p.alias ≡ []
    → alias_or_loop o p before ≡ some (q, after)
    → Reserves (called q) q.path before after
alias_or_loop-Reserves (some a) p q before after h none_yet e =
    subst (λ r. Reserves (called r.0) r.0.path before r.1) (some_injective (p, a) (q, after) e)
      (subst (λ n. Reserves n p.path before a)
        (ap (λ x. if is_empty x then p.name else x) (sym none_yet)) (h a refl))
alias_or_loop-Reserves none p q before after h none_yet e =
    looped (alias_loop (suc (length before)) 0 p.name p.path before)
      (alias_loop-Reserves (suc (length before)) 0 p.name p.path before) e
  where
    looped :
        (o : Option (Text × List (Text × Text)))
        → ((alias : Text) (a : List (Text × Text))
            → o ≡ some (alias, a)
            → Reserves alias p.path before a × (is_empty alias ≡ false))
        → ◌≡◌ {A = Option (GoPackage × List (Text × Text))}
            (elim o [ none ↦ none | some (alias, a) ↦ some (record p { alias = alias }, a) ])
            (some (q, after))
        → Reserves (called q) q.path before after
    looped none first e = cc
    looped (some (alias, a)) first e =
        let (r, n) = first alias a refl in
        subst (λ r. Reserves (called r.0) r.0.path before r.1)
          (some_injective (record p { alias = alias }, a) (q, after) e) (rw n r)

-- Every file of the registry has its package under the name that generated code calls it by.
record IsReserved (r : Registry) : Type 0 where
  plain : r.standalone ≡ false
  reserved :
      (k : Text) (f : FileEntry)
      → get k r.files ≡ some f
      → get (pkg f.file) r.pkg_aliases ≡ some f.file.go_pkg.path

register_file-IsReserved :
    (path : Text) (file : ProtogenFile) (r : Registry) (p : GoPackage)
    (aliases : List (Text × Text))
    → Reserves (called p) p.path r.pkg_aliases aliases
    → IsReserved r
    → IsReserved (register_file path file r (p, aliases))
unfolding register_file pkg
register_file-IsReserved path file r p aliases a i = record {
  plain = i.plain;
  reserved = λ k f e. elim (get-put-cases path k _ f r.files e) [
    | inl new ↦
        subst (λ (g : FileEntry). get (pkg g.file) aliases ≡ some g.file.go_pkg.path) new a.taken
    | inr old ↦ a.kept (pkg f.file) f.file.go_pkg.path (i.reserved k f old)
  ];
}

load_file-IsReserved :
    (path : Text) (file : ProtogenFile) (r r' : Registry)
    → load_file path file r ≡ some r'
    → IsReserved r
    → IsReserved r'
unfolding load_file reserve_package
load_file-IsReserved path file r r' e i =
    let first : GoPackage = record {
      path = file.go_import_path;
      name = file.go_package_name;
      alias = if r.standalone then codes "ext" ++ title file.go_package_name else [];
    } in
    loaded
      (alias_or_loop
        (reserve_go_package_alias file.go_package_name file.go_import_path r.pkg_aliases) first
        r.pkg_aliases)
      (λ q after e'.
        alias_or_loop-Reserves
          (reserve_go_package_alias file.go_package_name file.go_import_path r.pkg_aliases) first q
          r.pkg_aliases after
          (reserve-Reserves file.go_package_name file.go_import_path r.pkg_aliases)
          (rw (i.plain) refl) e')
      e
  where
    loaded :
        (o : Option (GoPackage × List (Text × Text)))
        → ((q : GoPackage) (after : List (Text × Text))
            → o ≡ some (q, after)
            → Reserves (called q) q.path r.pkg_aliases after)
        → elim o [ none ↦ none | some found ↦ some (register_file path file r found) ] ≡ some r'
        → IsReserved r'
    loaded none h e = cc
    loaded (some (q, after)) h e =
        subst IsReserved (some_injective (register_file path file r (q, after)) r' e)
          (register_file-IsReserved path file r q after (h q after refl) i)

load_files-IsReserved :
    (files : List (Text × ProtogenFile)) (r r' : Registry)
    → load_files files r ≡ some r'
    → IsReserved r
    → IsReserved r'
unfolding load_files
load_files-IsReserved [] r r' e i = subst IsReserved (some_injective r r' e) i
load_files-IsReserved ((path, file) ∷ files) r r' e i =
    loaded (load_file path file r) (load_file-IsReserved path file r) (load_files-IsReserved files)
      e
  where
    loaded :
        (o : Option Registry)
        → ((q : Registry) → o ≡ some q → IsReserved r → IsReserved q)
        → ((q q' : Registry) → load_files files q ≡ some q' → IsReserved q → IsReserved q')
        → elim o [ none ↦ none | some r₁ ↦ load_files files r₁ ] ≡ some r'
        → IsReserved r'
    loaded none first later e = cc
    loaded (some q) first later e = later q r' e (first q refl i)

nothing : (k : Text) (files : List (Text × FileEntry)) → files ≡ [] → get k files ≡ none
unfolding get
nothing k [] e = refl
nothing k (f ∷ files) e = cc

-- When files are loaded into a registry that has none yet and is not standalone, two files whose
-- packages generated code calls by the same name have the same package path.
pub load_files-pkg :
    (files : List (Text × ProtogenFile)) (r r' : Registry)
    → r.standalone ≡ false
    → r.files ≡ []
    → load_files files r ≡ some r'
    → (k j : Text) (f g : FileEntry) → get k r'.files ≡ some f
    → get j r'.files ≡ some g
    → pkg f.file ≡ pkg g.file
    → f.file.go_pkg.path ≡ g.file.go_pkg.path
load_files-pkg files r r' plain none_yet e k j f g hf hg same =
    let i =
      load_files-IsReserved files r r' e
        (record { plain = plain; reserved = λ k f h. cc (nothing k r.files none_yet) }) in
    some_injective _ _
      (sym (i.reserved k f hf) ∙ (ap (λ n. get n r'.pkg_aliases) same ∙ i.reserved j g hg))
