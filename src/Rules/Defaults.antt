-- ===== src/Rules/Defaults.antt =====
-- With no stored rules, the configured engine earns what `badges.Evaluate` awards.
use impact_graph.Base.{◌≡◌, refl, [], All, lookup, or-false, max_ℤ}
use impact_graph.Badges.{Badge, Signals, catalog, holds, evaluate, is_live}
use impact_graph.Badges.Earned.{holds-evaluate}
use impact_graph.Rules.{rule_for, rule_earned}

-- For each badge of the catalog, the default rule is earned exactly when `Evaluate` awards the badge:
-- the two engines agree, on the badge that neither of them awards as well.
pub default_rules-evaluate :
    (s : Signals)
    → All (λ (b : Badge). rule_earned (rule_for [] b) s ≡ holds b.code (evaluate s)) catalog
unfolding rule_earned rule_for is_live max_ℤ lookup
default_rules-evaluate s =
    simp (holds-evaluate, or-false)
      (
        refl,
        (
          refl,
          (
            refl,
            (
              refl,
              (
                refl,
                (
                  refl,
                  (
                    refl,
                    (
                      refl,
                      (
                        refl,
                        (
                          refl,
                          (
                            refl,
                            (
                              refl,
                              (
                                refl,
                                (
                                  refl,
                                  (
                                    refl,
                                    (
                                      refl,
                                      (
                                        refl,
                                        (refl, (refl, (refl, (refl, (refl, (refl, (refl, tt))))))),
                                      ),
                                    ),
                                  ),
                                ),
                              ),
                            ),
                          ),
                        ),
                      ),
                    ),
                  ),
                ),
              ),
            ),
          ),
        ),
      )
