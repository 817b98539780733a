-- ===== src/Docker/Tests.antt =====
-- The monitor at concrete data.
use mathlib.Core.List.{Permᴰ}
use mathlib.Core.Path.{subst}
use text.Mathlib.TextEquality.{eq_iff}
use oopsys_agent.Base.{String, str_eq, ◌≡◌, refl, inl, inr, Bool-cases, some, List, [], ◌∷◌, ok}
use oopsys_agent.Base.Order.{sorted, insert, str_leb}
use oopsys_agent.Base.Results.{◌>>=◌, Holds}
use oopsys_agent.Base.Text.{lower}
use oopsys_agent.Domain.{ContainerState}
use oopsys_agent.Dynamic.Defs.{lookup}
use oopsys_agent.Docker.Bounds.{sane, read_stats-sane}
use oopsys_agent.Docker.Collect.{survivors}
use oopsys_agent.Docker.Documented.Build.{usage_in, build_state-inspect_json}
use oopsys_agent.Docker.Documented.Container.{inspect_json, reported}
use oopsys_agent.Docker.Documented.Stats.{stats_json}
use oopsys_agent.Docker.Documented.Usage.{listed, asked, usage_of}
use oopsys_agent.Docker.Documented.Collect.{reports}
use oopsys_agent.Docker.Ports.{port_items, add_items, ports_items, format_ports, format_ports-Perm}
use oopsys_agent.Docker.State.{read_stats, build_state}
use oopsys_agent.Docker.Samples.{
  some_floats, ports, ports_again, strict, strict-IsFaithful, web, web-IsDocumented, web_stats,
  no_parser, listing,
}

ports_text :
    format_ports some_floats ports
    ≡ ok ("5432→5432/tcp" ∷ "127.0.0.1:80→8080/tcp" ∷ "81→8080/tcp" ∷ "9000/udp" ∷ [])
unfolding format_ports ports_items add_items port_items sorted insert str_leb
ports_text = refl

same_ports : (key : String) → lookup key ports ≡ lookup key ports_again
same_ports key = elim (Bool-cases (str_eq "8080/tcp" key)) [
  | inl same ↦
      subst (λ k. lookup k ports ≡ lookup k ports_again) ((eq_iff "8080/tcp" key).0 same) refl
  | inr differ ↦ rw differ refl
]

format_ports-Perm_example : format_ports some_floats ports ≡ format_ports some_floats ports_again
format_ports-Perm_example =
    format_ports-Perm some_floats ports ports_again ∣ Permᴰ.swap refl refl ∣₁ same_ports

build_state-inspect_json_example :
    build_state some_floats strict no_parser
      (ok (inspect_json web))
      (asked (ok (listed web_stats)))
      400
    ≡ (usage_in some_floats "running" (ok (listed web_stats)) >>= λ u.
        ok (reported no_parser web u 400))
build_state-inspect_json_example =
    build_state-inspect_json some_floats strict no_parser strict-IsFaithful web web-IsDocumented
      (ok (listed web_stats)) 400

web_usage :
    usage_of some_floats web_stats
    ≡ ok (record {
      cpu = some 4631107791820423168;
      mem_usage = some 500;
      mem_percent = some 4631107791820423168;
      net_rx = some 8;
      net_tx = some 10;
      blk_read = some 33;
      blk_write = some 40;
    })
unfolding lower
web_usage = refl

read_stats-sane_example : Holds (sane some_floats) (read_stats some_floats (stats_json web_stats))
read_stats-sane_example = read_stats-sane some_floats (stats_json web_stats)

abbrev survivor_names : List ContainerState → List String
survivor_names [] = []
survivor_names (state ∷ states) = state.name ∷ survivor_names states

reported_names :
    survivor_names (survivors (reports some_floats no_parser listing)) ≡ "web" ∷ "old" ∷ []
reported_names = refl
