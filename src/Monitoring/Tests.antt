-- ===== src/Monitoring/Tests.antt =====
-- Concrete runs of monitoring/security_monitoring.py.
use bt_api_security.Prelude.{◌≡◌, refl, true, false, none, [], nat_Eq, string_Eq, length, err}
use bt_api_security.Monitoring.Alerts.{
  low, critical, SecurityMonitoring, no_module, init, create_alert, get_alerts,
  get_monitoring_summary,
}
use bt_api_security.Monitoring.Reading.{IsNewestFirst, reading_keeps_summary}

abbrev two_alerts : SecurityMonitoring
two_alerts =
    (create_alert 2000000 2000000 "b" "" critical "x" []
      (create_alert 1000000 1000000 "a" "" low "x" [] (init false)).1).1

reading_keeps_summary_example :
    IsNewestFirst (get_alerts none none 1 two_alerts).0
    × (get_monitoring_summary 3000000 (get_alerts none none 1 two_alerts).1
        ≡ get_monitoring_summary 3000000 two_alerts)
reading_keeps_summary_example = reading_keeps_summary none none 1 3000000 two_alerts

-- With an audit logger the call raises, and the alert is stored.
logged_alert_raises :
    ((create_alert 1 1 "a" "" low "x" [] (init true)).0 ≡ err no_module)
    × (length (create_alert 1 1 "a" "" low "x" [] (init true)).1.alerts ≡ 1)
unfolding create_alert init
logged_alert_raises = (refl, refl)
