-- ===== src/Metallb/Pool.antt =====
-- pkg/metallb/install.go: what an attempt to fetch the addresses leaves in the pool.
use maistra_test_tool.World.{World, returned, when, for_each, modify, ◌>>=◌, ◌>>◌}
use maistra_test_tool.World.Onward.{Same-refl}
use maistra_test_tool.Helper.{error}
use maistra_test_tool.Check.Leaves.{own_mark, error-Leaves}
use maistra_test_tool.Metallb.{pool_line, add_addresses}
use maistra_test_tool.Prelude.{
  ℕ, ◌≡◌, refl, Bool, true, false, not, some, List, [], ◌∷◌, ◌++◌, if◌then◌else◌, sym, append-nil,
  ◌∙◌, sym, ap, append_assoc,
}
use maistra_test_tool.Text.{Text}
use maistra_test_tool.Helper.Still.{error-Still}

abbrev pub pool_lines : List Text → Text
pool_lines [] = []
pool_lines (ip ∷ ips) = pool_line ip ++ pool_lines ips

marks :
    (valid later b : Bool)
    → (if later then if valid then b else true else true)
      ≡ (if if valid then later else false then b else true)
marks true later b = refl
marks false true b = refl
marks false false b = refl

module _ (parse_ip : Text → Bool) where
  abbrev pub all_parse : List Text → Bool
  all_parse [] = true
  all_parse (ip ∷ ips) = if parse_ip ip then all_parse ips else false

  module _ (r : ℕ) where
    complaint :
        (valid : Bool) (msg : Text) (w : World) (b : Bool)
        → own_mark (w.helpers r) ≡ some b
        → let (o, w') = when (not valid) (error r msg) w in
          (o ≡ returned tt)
          × (own_mark (w'.helpers r) ≡ some (if valid then b else true))
          × (w'.address_pool ≡ w.address_pool)
    unfolding when
    complaint true msg w b h = (refl, h, refl)
    complaint false msg w b h =
        let (returns, marked) = (error-Leaves msg).at w b h in
        (returns, marked, ((error-Still r msg).at w (Same-refl w)).pool)

    loop :
        (msg : Text) (ips : List Text) (w : World) (b : Bool)
        → own_mark (w.helpers r) ≡ some b
        → let (o, w') =
            for_each ips
              (λ raw_ip. do
                when (not (parse_ip raw_ip)) (error r msg)
                modify λ w. record w { address_pool = w.address_pool ++ pool_line raw_ip })
              w in
          (o ≡ returned tt)
          × (own_mark (w'.helpers r) ≡ some (if all_parse ips then b else true))
          × (w'.address_pool ≡ w.address_pool ++ pool_lines ips)
    unfolding for_each ◌>>=◌ modify
    loop msg [] w b h = (refl, h, sym (append-nil _))
    loop msg (ip ∷ ips) w b h =
        let (returns, marked, pooled) = complaint (parse_ip ip) msg w b h in
        rw returns (
          let w' = (when (not (parse_ip ip)) (error r msg) w).1 in
          let (o, m, p) =
            loop msg ips (record w' { address_pool = w'.address_pool ++ pool_line ip })
              (if parse_ip ip then b else true) marked in
          (
            o,
            m ∙ ap some (marks (parse_ip ip) (all_parse ips) b),
            p
                ∙ (append_assoc w'.address_pool (pool_line ip) (pool_lines ips)
                    ∙ ap (λ x. x ++ (pool_line ip ++ pool_lines ips)) pooled),
          ))

    pub add_addresses-pool :
        (ips : List Text) (w : World) (b : Bool)
        → own_mark (w.helpers r) ≡ some b
        → let (o, w') = add_addresses parse_ip r ips w in
          (o ≡ returned tt)
          × (own_mark (w'.helpers r) ≡ some (if all_parse ips then b else true))
          × (w'.address_pool ≡ w.address_pool ++ pool_lines ips)
    unfolding add_addresses
    add_addresses-pool ips w b h = loop _ ips w b h
