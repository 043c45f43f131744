-- ===== src/Program/Closing.antt =====
-- `revolution maintenance on|off` and the site (internal/cli/maintenance.go, internal/web/server.go).
use revolution.Prelude.{
  ◌+◌, ◌≡◌, refl, ap, subst, sym, ◌∙◌, ℤ, Text, codes, eq_text, Bool, true, false, List, [], ◌∷◌,
  if◌then◌else◌,
}
use revolution.Store.Exec.{
  Result, ok, World, M, advance, ◌>>=◌, ◌>>◌, lift, pure, continue, statement,
}
use revolution.Store.Torrents.Upsert.{NoFault}
use revolution.Store.Settings.{set_maintenance, set_setting}
use revolution.Nostr.Keys.{has_prefix}
use revolution.Config.{Config}
use revolution.Ingest.Scrape.{Scraper}
use revolution.Cli.Terminal.{Setup, Message, maintenance_is, load_config, open_store}
use revolution.Cli.Site.{cmd_maintenance}
use revolution.Cli.Process.{Machine}
use revolution.Cli.Server.{Turn}
use revolution.Cli.Run.{run}
use revolution.Web.Site.{Site, Request, Server, maintenance_page, respond}
use revolution.Web.Serve.{limited, serve_request}
use revolution.Web.Serve.Maintenance.{serve_request-set_maintenance}
use revolution.Program.Moderation.{open_store_ok}

abbrev pub switch : Bool → Text
switch on = if on then codes "on" else codes "off"

module _ (s : Setup) (cfg : Config) (loads : load_config s ≡ ok cfg) (w : World)
    (h : NoFault w) where
  -- The command, once the catalogue is open.
  abbrev rest : Bool → M Message
  rest on = set_maintenance on >> pure (maintenance_is on)

  rest-done :
      (on : Bool) (v : World)
      → v.fails v.step ≡ false
      → rest on v ≡ (ok (maintenance_is on), (set_maintenance on v).1)
  unfolding ◌>>=◌ set_maintenance set_setting statement pure
  rest-done on v good = rw good refl

  opened :
      (on : Bool)
      → (open_store s >> rest on) w ≡ (ok (maintenance_is on), (set_maintenance on (advance w)).1)
  unfolding ◌>>=◌
  opened on =
      ap (λ (r : Result Config × World). continue r.0 (λ c. rest on) r.1)
        (open_store_ok s cfg loads w h)
      ∙ rest-done on (advance w) (h (w.step + 1))

  cmd_maintenance-switch :
      (on : Bool)
      → cmd_maintenance s (switch on ∷ []) w
        ≡ (ok (maintenance_is on), (set_maintenance on (advance w)).1)
  unfolding cmd_maintenance ◌>>=◌ lift eq_text
  cmd_maintenance-switch true = opened true
  cmd_maintenance-switch false = opened false

  module _ (sc : ℤ → Scraper) (ts : List Turn) (m : Machine) where
    abbrev typed : Bool → World
    typed on = (run s sc ts (codes "maintenance" ∷ switch on ∷ []) (w, m)).1.0

    run-maintenance : (on : Bool) → typed on ≡ (set_maintenance on (advance w)).1
    unfolding run eq_text
    run-maintenance on = ap (λ (r : Result Message × World). r.1) (cmd_maintenance-switch on)

    -- After `revolution maintenance on`, where the configuration loads and no statement fails, the site answers a
    -- request for anything but a static file with the maintenance page and status 503, and no limiter counts
    -- it; after `revolution maintenance off` it answers as its limiter and its routes say.
    pub serve_request-maintenance :
        (on : Bool) (site : Site) (r : Request) (sv : Server)
        → has_prefix r.path (codes "/static/") ≡ false
        → serve_request site r sv (run s sc ts (codes "maintenance" ∷ switch on ∷ []) (w, m)).1.0
          ≡ (if on
              then (
                ok (respond 503 (maintenance_page site.cfg.site_name), sv),
                advance (run s sc ts (codes "maintenance" ∷ switch on ∷ []) (w, m)).1.0,
              )
              else limited site r sv
                  (advance (run s sc ts (codes "maintenance" ∷ switch on ∷ []) (w, m)).1.0))
    serve_request-maintenance on site r sv page =
        subst
          (λ v. serve_request site r sv v ≡ (
            if on
            then (ok (respond 503 (maintenance_page site.cfg.site_name), sv), advance v)
            else limited site r sv (advance v)))
          (sym (run-maintenance on)) (serve_request-set_maintenance site r sv on (advance w) h page)
