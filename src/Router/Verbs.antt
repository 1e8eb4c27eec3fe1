-- ===== src/Router/Verbs.antt =====
-- `get`, `post`, `put`, `patch` and `delete` of `HttpRouter`.
use noware.Prelude.{String}
use noware.Router.{HttpRouter, route}

module _ {C : Type 0} (name_of : C → String) (path : String) (controller : C)
    (action : String) where
  unfoldable pub get : HttpRouter C → HttpRouter C
  unfolding route
  get =
      route name_of
        (record { method = "GET"; path = path; controller = controller; action = action })

  unfoldable pub post : HttpRouter C → HttpRouter C
  unfolding route
  post =
      route name_of
        (record { method = "POST"; path = path; controller = controller; action = action })

  unfoldable pub put : HttpRouter C → HttpRouter C
  unfolding route
  put =
      route name_of
        (record { method = "PUT"; path = path; controller = controller; action = action })

  unfoldable pub patch : HttpRouter C → HttpRouter C
  unfolding route
  patch =
      route name_of
        (record { method = "PATCH"; path = path; controller = controller; action = action })

  unfoldable pub delete : HttpRouter C → HttpRouter C
  unfolding route
  delete =
      route name_of
        (record { method = "DELETE"; path = path; controller = controller; action = action })
