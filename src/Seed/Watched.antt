-- ===== src/Seed/Watched.antt =====
-- `create_seed_iso` (src/setup/seed.rs) on a host that keeps a list of the directories that were created and
-- whose removal was asked for.
use vm_rs.Prelude.{
  ◌≡◌, refl, ap, ◌∙◌, Option, none, some, List, [], ◌∷◌, ◌++◌, inl, inr, ◌⊎◌, append_assoc,
}
use vm_rs.Prelude.Tests.{Bool-cases}
use vm_rs.Prelude.Text.{Str, codes}
use vm_rs.Result.{Result, ok, err, IoError, Result-cases}
use vm_rs.Exec.{Exec, lift, ◌>>◌}
use vm_rs.Exec.Rules.{Keeps, >>=-Keeps}
use vm_rs.Paths.{join, parent}
use vm_rs.Seed.{SeedConfig, NicConfig, is_safe_hostname, build_user_data, build_network_config}
use vm_rs.Seed.Iso.{
  SeedHost, Output, on_host, unless_success, check_output, iso_args, fill, write_network,
  write_nics, create_iso_image, fill_and_remove, in_parent, tmp_name, create_seed_iso,
}

pub data Event : Type 0 where
  created removed : Str → Event

pub record Watched (W : Type 0) : Type 0 where
  pub world : W
  pub events : List Event

abbrev pub made : Str → Result IoError (Unit {0}) → List Event → List Event
made path (ok _) events = events ++ created path ∷ []
made path (err e) events = events

module _ {W : Type 0} where
  abbrev pub beside : {A : Type 0} → (W → A × W) → Watched W → A × Watched W
  beside act x = ((act x.world).0, record x { world = (act x.world).1 })

  abbrev pub watched : SeedHost W → SeedHost (Watched W)
  watched host = record {
    process_id = host.process_id;
    fetch_add = beside host.fetch_add;
    timestamp_nanos = λ x. host.timestamp_nanos x.world;
    create_dir_all = λ path x. (
      (host.create_dir_all path x.world).0,
      record x {
        world = (host.create_dir_all path x.world).1;
        events = made path (host.create_dir_all path x.world).0 x.events;
      },
    );
    write = λ path text. beside (host.write path text);
    remove_dir_all = λ path x. (
      (host.remove_dir_all path x.world).0,
      record x {
        world = (host.remove_dir_all path x.world).1;
        events = x.events ++ removed path ∷ [];
      },
    );
    output = λ program args. beside (host.output program args);
  }

-- No directory was created, or one was and its removal was asked for.
abbrev pub IsBalanced : List Event → List Event → Type 0
IsBalanced before after =
    (after ≡ before) ⊎ ((dir : Str) × (after ≡ before ++ created dir ∷ removed dir ∷ []))

module _ {W : Type 0} (inner : SeedHost W) where
  abbrev host : SeedHost (Watched W)
  host = watched inner

  module _ (events : List Event) where
    abbrev HasSeen : Watched W → Type 0
    HasSeen x = x.events ≡ events

    unless_success-Keeps :
        (r : Result IoError Output) (other : Exec (Watched W) vm_rs.Seed.SetupError (Unit {0}))
        → Keeps HasSeen other
        → Keeps HasSeen (unless_success host r other)
    unless_success-Keeps (ok out) other k x h = elim (Bool-cases out.success) [
      | inl good ↦ rw good h
      | inr bad ↦ rw bad (k x h)
    ]
    unless_success-Keeps (err e) other k x h = k x h

    check_output-Keeps : (out : Output) → Keeps HasSeen (check_output host out)
    unfolding check_output
    check_output-Keeps out x h = elim (Bool-cases out.success) [
      | inl good ↦ rw good h
      | inr bad ↦ rw bad h
    ]

    create_iso_image-Keeps :
        (iso_path dir : Str) → Keeps HasSeen (create_iso_image host iso_path dir)
    unfolding create_iso_image
    create_iso_image-Keeps iso_path dir x h =
        unless_success-Keeps _ _
          (>>=-Keeps HasSeen
            (on_host host (host.output (codes "mkisofs") (iso_args host iso_path dir)))
            (λ out. check_output host out) (λ y k. k) check_output-Keeps)
          _ h

    write_network-Keeps : (c : SeedConfig) (dir : Str) → Keeps HasSeen (write_network host c dir)
    unfolding write_network
    write_network-Keeps c dir = go c.nics
      where
        go : (nics : List NicConfig) → Keeps HasSeen (write_nics host c dir nics)
        go [] = λ x h. h
        go (nic ∷ nics) =
            >>=-Keeps HasSeen (lift (build_network_config c))
              (λ text. on_host host (host.write (join dir (codes "network-config")) text))
              (λ x h. h) (λ text x h. h)

    fill-Keeps : (c : SeedConfig) (iso_path dir : Str) → Keeps HasSeen (fill host c iso_path dir)
    unfolding fill
    fill-Keeps c iso_path dir =
        >>=-Keeps HasSeen _ _ (λ x h. h)
          (λ _.
            >>=-Keeps HasSeen (lift (build_user_data c)) _ (λ x h. h)
              (λ text.
                >>=-Keeps HasSeen _ _ (λ x h. h)
                  (λ _.
                    >>=-Keeps HasSeen (write_network host c dir) _ (write_network-Keeps c dir)
                      (λ _. create_iso_image-Keeps iso_path dir))))

  create_and_fill-IsBalanced :
      (c : SeedConfig) (iso_path dir : Str) (x : Watched W)
      → IsBalanced x.events
          ((on_host host (host.create_dir_all dir) >> fill_and_remove host c iso_path dir)
            x).1.events
  unfolding fill_and_remove
  create_and_fill-IsBalanced c iso_path dir x =
      elim (Result-cases (inner.create_dir_all dir x.world).0) [
        | inr (e, bad) ↦ rw bad (inl refl)
        | inl (_, good) ↦ rw good (
            inr (
              dir,
              ap (λ l. l ++ removed dir ∷ [])
                    (fill-Keeps (x.events ++ created dir ∷ []) c iso_path dir _ refl)
                  ∙ append_assoc x.events (created dir ∷ []) (removed dir ∷ []),
            ))
      ]

  -- Whatever fails, and wherever: `create_seed_iso` creates no directory, or it creates one
  -- and, after that, asks for the removal of that one, once.
  pub create_seed_iso_cleans :
      (c : SeedConfig) (iso_path : Str) (x : Watched W)
      → IsBalanced x.events (create_seed_iso host c iso_path x).1.events
  unfolding create_seed_iso in_parent
  create_seed_iso_cleans c iso_path x = elim (Bool-cases (is_safe_hostname c.hostname)) [
    | inr unsafe ↦ rw unsafe (inl refl)
    | inl safe ↦ rw safe (go (parent iso_path))
  ]
    where
      go : (p : Option Str) → IsBalanced x.events (in_parent host c iso_path p x).1.events
      go none = inl refl
      go (some dir) =
          let (counter, x1) = host.fetch_add x in
          create_and_fill-IsBalanced c iso_path
            (join dir (tmp_name host c (host.timestamp_nanos x1) counter)) x1
