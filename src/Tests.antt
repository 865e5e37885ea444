-- ===== src/Tests.antt =====
-- Runs of the models on concrete inputs, by the part of the program.
mod Upload
mod Form
mod Pages
mod Playlist
mod Common
mod Files
mod Browse
mod SearchPage
mod Shell
mod Grouper
mod Album
mod Names
mod Drop
