-- ===== src/Sdk/Races.antt =====
-- A download that ends while the installation of another one is under way.
use salve_push.Base.{ℕ, suc, ◌≡◌, refl, ap, none, some, List, [], ◌∷◌, Bytes}
use salve_push.Protocol.{Runtime}
use salve_push.Sdk.Update.{
  SalvePushConfig, UpdateInfo, ok, err, nothing_downloaded, Network, ◌>>=◌,
  download_and_verify_bundle,
}
use salve_push.Sdk.Facade.{
  configured, require_config, start_install, finish_install, finish_download, downloaded,
}
use salve_push.Sdk.Calls.{System, Reach, here, next, download_finished, install_finished}

module _ (R : Runtime) (Trusted : SalvePushConfig → Type 0) where
  -- Once configured, with a native installation under way: the first download that waits can
  -- finish before the installation returns. Then its bundle is dropped without a call of the
  -- native module, and `installUpdate` says that nothing was downloaded.
  pub lost_download :
      (s : System) (N : Network) (c config : SalvePushConfig) (u : UpdateInfo)
      (rest : List (SalvePushConfig × UpdateInfo)) (bundle : Bytes) (n : ℕ)
      → s.variables.config ≡ some config
      → s.downloads ≡ (c, u) ∷ rest
      → download_and_verify_bundle R N c u ≡ ok bundle
      → s.installing ≡ suc n
      → (t : System) × Reach R Trusted s t
        × (t.downloads ≡ rest)
        × (t.native_calls ≡ s.native_calls)
        × (start_install t.variables ≡ err nothing_downloaded)
  unfolding start_install require_config finish_install finish_download
  lost_download s N c config u rest bundle n set waits e under_way =
      let v = finish_download u bundle s.variables in
      (
        record s { variables = finish_install v; downloads = rest; installing = n },
        next (next here (download_finished s N [] rest c u bundle waits e))
            (install_finished (record s { variables = v; downloads = rest }) n under_way),
        refl,
        refl,
        ap (λ o. configured o >>= (λ _. downloaded none none)) set,
      )
