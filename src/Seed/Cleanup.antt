-- ===== src/Seed/Cleanup.antt =====
-- `create_seed_iso` (src/setup/seed.rs): what a success was checked for, and what stays behind.
use vm_rs.Prelude.{◌≡◌, refl, true, Option, none, some, List, [], ◌∷◌, inl, inr, ◌⊎◌, arith}
use vm_rs.Prelude.Tests.{Bool-cases}
use vm_rs.Prelude.Text.{Str, codes}
use vm_rs.Result.{ok}
use vm_rs.Exec.{lift, ◌>>=◌, ◌>>◌}
use vm_rs.Exec.Rules.{>>=-ok}
use vm_rs.Paths.{join, parent}
use vm_rs.Seed.{SeedConfig, NicConfig, is_safe_hostname, build_user_data, build_network_config}
use vm_rs.Seed.Iso.{
  SeedHost, on_host, fill, write_network, write_nics, meta_data, create_iso_image, fill_and_remove,
  in_parent, tmp_name, create_seed_iso,
}

-- What a success of the closure was checked for.
abbrev pub WasChecked : SeedConfig → Type 0
WasChecked c =
    ((text : Str) × (build_user_data c ≡ ok text))
    × ((c.nics ≡ []) ⊎ ((text : Str) × (build_network_config c ≡ ok text)))

module _ {W : Type 0} (host : SeedHost W) where
  write_network_ok :
      (c : SeedConfig) (tmp_dir : Str) (w : W)
      → (write_network host c tmp_dir w).0 ≡ ok tt
      → (c.nics ≡ []) ⊎ ((text : Str) × (build_network_config c ≡ ok text))
  unfolding write_network write_nics
  write_network_ok c tmp_dir w h = go c.nics refl h
    where
      go :
          (nics : List NicConfig)
          → c.nics ≡ nics
          → (write_nics host c tmp_dir nics w).0 ≡ ok tt
          → (c.nics ≡ []) ⊎ ((text : Str) × (build_network_config c ≡ ok text))
      go [] e h' = inl e
      go (nic ∷ nics) e h' =
          let (text, e2, _, _) =
            >>=-ok (lift (build_network_config c))
              (λ text. on_host host (host.write (join tmp_dir (codes "network-config")) text)) w
              h' in
          inr (text, e2)

  fill_ok :
      (c : SeedConfig) (iso_path tmp_dir : Str) (w : W)
      → (fill host c iso_path tmp_dir w).0 ≡ ok tt
      → WasChecked c
  unfolding fill
  fill_ok c iso_path tmp_dir w h =
      let image = create_iso_image host iso_path tmp_dir in
      let rest = λ (_ : Unit {0}). write_network host c tmp_dir >> image in
      let put = λ (text : Str). on_host host (host.write (join tmp_dir (codes "user-data")) text) in
      let meta = on_host host (host.write (join tmp_dir (codes "meta-data")) (meta_data host c)) in
      let data' = λ (_ : Unit {0}). lift (build_user_data c) >>= λ text. put text >>= rest in
      let (_, _, h1, _) = >>=-ok meta data' w h in
      let w1 = (meta w).1 in
      let (text, e, h2, _) = >>=-ok (lift (build_user_data c)) (λ text. put text >>= rest) w1 h1 in
      let (_, _, h3, _) = >>=-ok (put text) rest w1 h2 in
      let w2 = (put text w1).1 in
      let (_, n, _, _) = >>=-ok (write_network host c tmp_dir) (λ _. image) w2 h3 in
      ((text, e), write_network_ok c tmp_dir w2 n)

  in_parent_ok :
      (c : SeedConfig) (iso_path : Str) (p : Option Str) (w : W)
      → (in_parent host c iso_path p w).0 ≡ ok tt
      → WasChecked c
  unfolding in_parent fill_and_remove
  in_parent_ok c iso_path none w h = cc
  in_parent_ok c iso_path (some dir) w h =
      let (counter, w1) = host.fetch_add w in
      let tmp_dir = join dir (tmp_name host c (host.timestamp_nanos w1) counter) in
      let create = on_host host (host.create_dir_all tmp_dir) in
      let (_, _, h1, _) = >>=-ok create (λ _. fill_and_remove host c iso_path tmp_dir) w1 h in
      fill_ok c iso_path tmp_dir (create w1).1 h1

  -- A seed image is only reported as written for a safe host name, an accepted `user-data`, and
  -- an accepted `network-config` unless there is no interface.
  pub create_seed_iso_ok :
      (c : SeedConfig) (iso_path : Str) (w : W)
      → (create_seed_iso host c iso_path w).0 ≡ ok tt
      → (is_safe_hostname c.hostname ≡ true) × WasChecked c
  unfolding create_seed_iso
  create_seed_iso_ok c iso_path w h = elim (Bool-cases (is_safe_hostname c.hostname)) [
    | inl safe ↦ (safe, in_parent_ok c iso_path (parent iso_path) w (simp safe at h))
    | inr unsafe ↦ absurd (ground arith)
  ]
